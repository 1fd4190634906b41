-- ===== src/Core/Verbs.antt =====
-- The scheduler's RDMA operations one by one: core/scheduler/corotine_scheduler.h. A queue pair of
-- the RDMA library is given what it is to post, and says whether it succeeds.
pub mod Counted
mod Tests
use rdma_yuxi.Prelude.{ℕ, Bool, update}
use rdma_yuxi.Core.Scheduler.{Scheduler, rdma_post, rdma_post_sync}

pub data Opcode : Type 0 where
  rdma_write rdma_read : Opcode

-- `ibv_send_wr`: its identifier, and the rest of it.
pub record SendWr : Type 0 where
  pub wr_id : ℕ
  pub request : ℕ

-- What is handed to a queue pair, to report its completion (`IBV_SEND_SIGNALED`). The numbers are in
-- the order of the library's functions, and the last is the identifier; an array of requests is a
-- function, with the index of its last.
pub data Post : Type 0 where
  post_send : Opcode → ℕ → ℕ → ℕ → ℕ → Post
  post_send_to_mr : ℕ → ℕ → Opcode → ℕ → ℕ → ℕ → ℕ → Post
  post_cas : ℕ → ℕ → ℕ → ℕ → ℕ → Post
  post_batch : (ℕ → SendWr) → ℕ → Post

-- `send_sr[doorbell_num].wr_id = coro_id`
abbrev pub set_wr_id : (ℕ → SendWr) → ℕ → ℕ → ℕ → SendWr
set_wr_id send_sr doorbell_num coro_id =
    update send_sr doorbell_num (record (send_sr doorbell_num) { wr_id = coro_id })

-- What is posted, what the operation returns, and the scheduler after it.
abbrev pub Issued : Type 0
Issued = Post × Bool × Scheduler

abbrev posting : Scheduler → ℕ → ℕ → (Post → Bool) → Post → Issued
posting s coro_id qp rc post = let r = rdma_post s coro_id qp (rc post) in (post, r.0, r.1)

module _ (s : Scheduler) (coro_id qp : ℕ) (rc : Post → Bool) where
  unfoldable pub rdma_batch : (ℕ → SendWr) → ℕ → Issued
  rdma_batch send_sr doorbell_num =
      posting s coro_id qp rc (post_batch (set_wr_id send_sr doorbell_num coro_id) doorbell_num)

  unfoldable pub rdma_write_op : ℕ → ℕ → ℕ → Issued
  rdma_write_op wt_data remote_offset size =
      posting s coro_id qp rc (post_send rdma_write wt_data size remote_offset coro_id)

  unfoldable pub rdma_write_to_mr : ℕ → ℕ → ℕ → ℕ → ℕ → Issued
  rdma_write_to_mr wt_data remote_offset size local_mr remote_mr =
      posting s coro_id qp rc
        (post_send_to_mr local_mr remote_mr rdma_write wt_data size remote_offset coro_id)

  unfoldable pub rdma_read_op : ℕ → ℕ → ℕ → Issued
  rdma_read_op rd_data remote_offset size =
      posting s coro_id qp rc (post_send rdma_read rd_data size remote_offset coro_id)

  unfoldable pub rdma_cas : ℕ → ℕ → ℕ → ℕ → Issued
  rdma_cas local_buf remote_offset compare swap =
      posting s coro_id qp rc (post_cas local_buf remote_offset compare swap coro_id)

  -- The two that poll in place, given what `poll_till_completion` comes to.
  unfoldable pub rdma_batch_sync : (ℕ → SendWr) → ℕ → Bool → Issued
  rdma_batch_sync send_sr doorbell_num polled =
      let post = post_batch (set_wr_id send_sr doorbell_num coro_id) doorbell_num in
      let r = rdma_post_sync s (rc post) polled in (post, r.0, r.1)

  unfoldable pub rdma_read_sync : ℕ → ℕ → ℕ → Bool → Issued
  rdma_read_sync rd_data remote_offset size polled =
      let post = post_send rdma_read rd_data size remote_offset coro_id in
      let r = rdma_post_sync s (rc post) polled in (post, r.0, r.1)

-- The identifier that the completion of a post carries: of a batch that of its last request.
abbrev pub wr_id_of : Post → ℕ
wr_id_of (post_send op buf size offset id) = id
wr_id_of (post_send_to_mr local remote op buf size offset id) = id
wr_id_of (post_cas buf offset compare swap id) = id
wr_id_of (post_batch sr last) = (sr last).wr_id
