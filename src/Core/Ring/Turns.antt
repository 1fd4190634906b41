-- ===== src/Core/Ring/Turns.antt =====
-- Between two polls the coroutines run one after the other, in the order of the ring.
use rdma_yuxi.Prelude.{
  ℕ, ◌≡◌, ◌≢◌, refl, ap, sym, ◌∙◌, subst, Bool, true, false, ◌==◌, List, [], ◌∷◌, ◌++◌,
  append_assoc, arith,
}
use rdma_yuxi.Core.Scheduler.{
  Coroutine, Scheduler, add_pending_qp, rdma_post, run_coroutine, yield_coroutine,
}
use rdma_yuxi.Core.Ring.{IsScheduled}
use rdma_yuxi.Core.Ring.Links.{Chain, last_of, last_of-append, mem-append}
use rdma_yuxi.Core.Ring.Yield.{first_of, first_of-next, head-yield, running-yield}
use rdma_yuxi.Core.Ring.Steps.{post-IsScheduled, run_coroutine-IsScheduled, yield-IsScheduled}

-- The coroutine that gets control next.
abbrev pub next_coro : Scheduler → ℕ
next_coro s = (s.coro_array s.running).next_coro

-- A round from the state `u`, with the coroutines that got control in it, in order: the one that
-- runs posts requests, yields for those that are pending, or passes control on; the round ends when
-- control is to go to the head, which polls.
pub data Turns (u : Scheduler) : Scheduler → List ℕ → Type 0 where
  begin : Turns u u []
  posts :
      (t : Scheduler) (w : List ℕ) (qp : ℕ) (posted : Bool)
      → Turns u t w
      → (t.coro_array t.running).is_wait_poll ≡ false
      → Turns u (rdma_post t t.running qp posted).1 w
  yields :
      (t : Scheduler) (w : List ℕ)
      → Turns u t w
      → t.running ≢ t.coro_head
      → t.pending_counts t.running == 0 ≡ false
      → next_coro t ≢ t.coro_head
      → Turns u (yield_coroutine t t.running) (w ++ (next_coro t ∷ []))
  passes :
      (t : Scheduler) (w : List ℕ)
      → Turns u t w
      → next_coro t ≢ t.coro_head
      → Turns u (run_coroutine t (next_coro t)) (w ++ (next_coro t ∷ []))

-- The part `done` of the ring, which ends in the coroutine that runs, and the part that is to run.
pub record IsTurn (n : ℕ) (t : Scheduler) (done todo : List ℕ) : Type 0 where
  pub ring : IsScheduled n t (done ++ todo)
  pub runs : t.running ≡ last_of t.coro_head done

Chain-next :
    (f : ℕ → Coroutine) (a b : ℕ) (xs ys : List ℕ)
    → Chain f a (xs ++ ys) b
    → (f (last_of a xs)).next_coro ≡ first_of ys b
Chain-next f a b [] ys h = first_of-next f a b ys h
Chain-next f a b (x ∷ xs) ys (e, p, h) = Chain-next f x b xs ys h

last-split : (c : ℕ) (l : List ℕ) → (xs : List ℕ) × (c ∷ l ≡ xs ++ (last_of c l ∷ []))
last-split c [] = ([], refl)
last-split c (d ∷ l) = let (xs, e) = last-split d l in (c ∷ xs, ap (◌∷◌ c) e)

behind-split :
    (a : ℕ) (l : List ℕ) → last_of a l ≢ a → (xs : List ℕ) × (l ≡ xs ++ (last_of a l ∷ []))
behind-split a [] ne = absurd (ne refl)
behind-split a (c ∷ l) ne = last-split c l

post_same :
    (t : Scheduler) (c qp : ℕ) (posted : Bool)
    → ((rdma_post t c qp posted).1.running ≡ t.running)
      × ((rdma_post t c qp posted).1.coro_head ≡ t.coro_head)
unfolding rdma_post add_pending_qp
post_same t c qp true = (refl, refl)
post_same t c qp false = (refl, refl)

head-run : (t : Scheduler) (c : ℕ) → (run_coroutine t c).coro_head ≡ t.coro_head
unfolding run_coroutine
head-run t c = refl

module _ (n : ℕ) (t : Scheduler) (done : List ℕ) where
  pub next_is : (todo : List ℕ) → IsTurn n t done todo → next_coro t ≡ first_of todo t.coro_head
  next_is todo v =
      ap (λ c. (t.coro_array c).next_coro) v.runs
      ∙ Chain-next t.coro_array t.coro_head t.coro_head done todo v.ring.ring.chain

  post-IsTurn :
      (todo : List ℕ) (qp : ℕ) (posted : Bool)
      → IsTurn n t done todo
      → (t.coro_array t.running).is_wait_poll ≡ false
      → IsTurn n (rdma_post t t.running qp posted).1 done todo
  post-IsTurn todo qp posted v awake = record {
    ring = post-IsScheduled n t (done ++ todo) t.running qp posted v.ring awake;
    runs = rw ((post_same t t.running qp posted).0, (post_same t t.running qp posted).1) v.runs;
  }

  -- Control goes to the first coroutine that is to run.
  module _ (c : ℕ) (todo : List ℕ) (v : IsTurn n t done (c ∷ todo)) where
    pass-IsTurn : IsTurn n (run_coroutine t (next_coro t)) (done ++ (c ∷ [])) todo
    unfolding run_coroutine
    pass-IsTurn = record {
      ring = rw (append_assoc done (c ∷ []) todo) (
          run_coroutine-IsScheduled n t (done ++ (c ∷ todo)) (next_coro t) v.ring
            (ground (arith, next_is (c ∷ todo) v, mem-append (next_coro t) done (c ∷ todo))));
      runs = next_is (c ∷ todo) v ∙ sym (last_of-append t.coro_head c done []);
    }

    -- One behind the head that yields leaves the ring.
    module _ (behind : t.running ≢ t.coro_head)
        (more : t.pending_counts t.running == 0 ≡ false) where
      left : (xs : List ℕ) × (done ≡ xs ++ (t.running ∷ []))
      left =
          let (xs, e) = behind-split t.coro_head done (λ e. behind (v.runs ∙ e)) in
          (xs, e ∙ ap (λ x. xs ++ (x ∷ [])) (sym v.runs))

      parts : done ++ (c ∷ todo) ≡ left.0 ++ (t.running ∷ c ∷ todo)
      parts = ap (λ l. l ++ (c ∷ todo)) left.1 ∙ append_assoc left.0 (t.running ∷ []) (c ∷ todo)

      yield-IsTurn : (xs : List ℕ) × IsTurn n (yield_coroutine t t.running) (xs ++ (c ∷ [])) todo
      yield-IsTurn = (
        left.0,
        record {
          ring = rw (append_assoc left.0 (c ∷ []) todo) (
              yield-IsScheduled n t left.0 (c ∷ todo) t.running more
                (subst (IsScheduled n t) parts v.ring));
          runs = rw (head-yield t t.running more) (
              running-yield t t.running more
              ∙ next_is (c ∷ todo) v
              ∙ sym (last_of-append t.coro_head c left.0 []));
        },
      )

-- What a list is before its first entry is not the head.
first-split :
    (h : ℕ) (l : List ℕ)
    → first_of l h ≢ h
    → (c : ℕ) × (rest : List ℕ) × (l ≡ c ∷ rest) × (first_of l h ≡ c)
first-split h [] ne = absurd (ne refl)
first-split h (c ∷ l) ne = (c, l, refl, refl)

-- Where a round from the ring `r` has come, after control went to the coroutines `w`.
pub record IsRound (n h : ℕ) (r : List ℕ) (t : Scheduler) (w : List ℕ) : Type 0 where
  pub done : List ℕ
  pub todo : List ℕ
  pub turn : IsTurn n t done todo
  pub all : r ≡ w ++ todo
  pub head : t.coro_head ≡ h

module _ (n h : ℕ) (r : List ℕ) (t : Scheduler) (w : List ℕ) (v : IsRound n h r t w) where
  -- The next coroutine, when it is not the head.
  ahead :
      next_coro t ≢ t.coro_head
      → (rest : List ℕ) × IsTurn n t v.done (next_coro t ∷ rest)
        × (r ≡ (w ++ (next_coro t ∷ [])) ++ rest)
  ahead ne =
      let (c, rest, e, first) =
        first-split t.coro_head v.todo (λ e. ne (next_is n t v.done v.todo v.turn ∙ e)) in
      let same : v.todo ≡ next_coro t ∷ rest =
        e ∙ ap (λ x. x ∷ rest) (sym (next_is n t v.done v.todo v.turn ∙ first)) in
      (
        rest,
        subst (IsTurn n t v.done) same v.turn,
        v.all ∙ ap (◌++◌ w) same ∙ sym (append_assoc w (next_coro t ∷ []) rest),
      )

pub turns-IsRound :
    (n : ℕ) (r : List ℕ) (u t : Scheduler) (w : List ℕ)
    → IsScheduled n u r
    → u.running ≡ u.coro_head
    → Turns u t w
    → IsRound n u.coro_head r t w
turns-IsRound n r u t w ring runs begin = record {
  done = [];
  todo = r;
  turn = record { ring = ring; runs = runs };
  all = refl;
  head = refl;
}
turns-IsRound n r u t w ring runs (posts q w' qp posted k awake) =
    let v = turns-IsRound n r u q w ring runs k in
    record {
      done = v.done;
      todo = v.todo;
      turn = post-IsTurn n q v.done v.todo qp posted v.turn awake;
      all = v.all;
      head = (post_same q q.running qp posted).1 ∙ v.head;
    }
turns-IsRound n r u t w ring runs (yields q w' k behind more ne) =
    let v = turns-IsRound n r u q w' ring runs k in
    let (rest, turn, all) = ahead n u.coro_head r q w' v ne in
    let (xs, turned) = yield-IsTurn n q v.done (next_coro q) rest turn behind more in
    record {
      done = xs ++ (next_coro q ∷ []);
      todo = rest;
      turn = turned;
      all = all;
      head = head-yield q q.running more ∙ v.head;
    }
turns-IsRound n r u t w ring runs (passes q w' k ne) =
    let v = turns-IsRound n r u q w' ring runs k in
    let (rest, turn, all) = ahead n u.coro_head r q w' v ne in
    record {
      done = v.done ++ (next_coro q ∷ []);
      todo = rest;
      turn = pass-IsTurn n q v.done (next_coro q) rest turn;
      all = all;
      head = head-run q (next_coro q) ∙ v.head;
    }
