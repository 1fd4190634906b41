-- ===== src/Peer/Text.antt =====
-- The server's response, as the client gets it: the request handler of peer/server/server.cc.
use rdma_yuxi.Prelude.{
  ℕ, zero, suc, ◌<◌, ◌≡◌, refl, arith, true, leb, List, [], ◌∷◌, some, get_elem?,
}
use rdma_yuxi.Rpc.State.{Pkt, Ref, Rpc, Env}
use rdma_yuxi.Rpc.Buffers.Cut.{packet_of}
use rdma_yuxi.Peer.Programs.{msg_size, hello}
use rdma_yuxi.Peer.Hello.{response}

-- The characters of the text, and its end.
abbrev pub hello_text : List ℕ
hello_text = 104 ∷ 101 ∷ 108 ∷ 108 ∷ 111 ∷ 0 ∷ []

pub hello_lem : (j : ℕ) → j < 6 → get_elem? hello_text j ≡ some (hello j)
hello_lem zero lt = refl
hello_lem (suc zero) lt = refl
hello_lem (suc (suc zero)) lt = refl
hello_lem (suc (suc (suc zero))) lt = refl
hello_lem (suc (suc (suc (suc zero)))) lt = refl
hello_lem (suc (suc (suc (suc (suc zero))))) lt = refl
hello_lem (suc (suc (suc (suc (suc (suc j)))))) lt = absurd (omega (arith, lt))

module _ (env : Env) (r : Rpc) (p : Ref) (wide : leb msg_size env.max_data_per_pkt ≡ true) where
  abbrev answer : Pkt
  answer = packet_of env.traits (response env r p) 0
