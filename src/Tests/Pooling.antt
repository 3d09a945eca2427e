-- ===== src/Tests/Pooling.antt =====
-- Interleavings of the pool of workers, and the theorems on them.
use mathlib.Core.List.{Perm}
use brokr.Common.{ℕ, none, some, [], ◌≡◌, refl, arith}
use brokr.Model.AsyncPool.{
  negsuc, AsyncPool, new_pool, submit, enqueue, receive, finish, IsDrained, submits, sends,
  receives, finishes, Reach,
}
use brokr.Model.AsyncPool.Drained.{Works, drained_finished, pool_drains}

-- BROKR_ASYNC_WORKERS is -3, which makes one worker; jobs are numbers.
abbrev idle : AsyncPool ℕ
idle = new_pool (some (negsuc 2)) none 4

abbrev waits : AsyncPool ℕ
waits = submit 7 idle

abbrev queued : AsyncPool ℕ
queued = enqueue 7 [] waits

abbrev working : AsyncPool ℕ
working = receive 7 [] queued

abbrev done : AsyncPool ℕ
done = finish 7 [] working

working_reached : Reach idle working
unfolding new_pool submit enqueue
working_reached =
    Reach.next (Reach.next (Reach.next Reach.here (submits 7)) (sends 7 [] [] refl (omega arith)))
      (receives 7 [] refl (omega arith))

done_reached : Reach idle done
unfolding new_pool submit enqueue receive
done_reached = Reach.next working_reached (finishes 7 [] [] refl)

none_left : IsDrained done
unfolding new_pool submit enqueue receive finish
none_left = refl

drained_finished_example :
    Perm done.submitted done.finished × (done.senders ≡ []) × (done.jobs ≡ []) × (done.running ≡ [])
drained_finished_example = drained_finished (some (negsuc 2)) none 4 done_reached none_left

pool_drains_example : (q : AsyncPool ℕ) × Works working q × IsDrained q
pool_drains_example = pool_drains (some (negsuc 2)) none 4 working_reached
