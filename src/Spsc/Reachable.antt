-- ===== src/Spsc/Reachable.antt =====
-- The invariant holds in every reachable state.
use shm_cpp.Common.{ℕ, refl, List, []}
use shm_cpp.Ring.{IsCapacity}
use shm_cpp.Spsc.{
  System, Step, begin_write, full, has_room, scribble, copy_in, publish, begin_read, nothing,
  some_bytes, copy_out, release, Reach, start, later,
}
use shm_cpp.Spsc.Invariant.{Inv, begin-Inv}
use shm_cpp.Spsc.Writing.{full-Inv, has_room-Inv, scribble-Inv, copy_in-Inv, publish-Inv}
use shm_cpp.Spsc.Reading.{some_bytes-Inv, copy_out-Inv, release-Inv}

module _ {cap : ℕ} (c : IsCapacity cap) where
  -- Every step of either side keeps the invariant.
  pub Step-Inv :
      {s t : System} {q : List ℕ} → Inv cap s q → Step cap s t → (q' : List ℕ) × Inv cap t q'
  Step-Inv {q} v (begin_write src len e _ _ given small) = (
    q,
    record {
      holds = v.holds;
      split = v.split;
      writer_ok = (refl, given, small);
      reader_ok = v.reader_ok;
    },
  )
  Step-Inv {q} v (full e f) = (q, full-Inv c v)
  Step-Inv {q} v (has_room e f) = (q, has_room-Inv c v e f)
  Step-Inv {q} v (scribble b e sc) = (q, scribble-Inv c v e sc)
  Step-Inv {q} v (copy_in e) = (q, copy_in-Inv c v e)
  Step-Inv v (publish e) = (_, publish-Inv c v e)
  Step-Inv {q} v (begin_read n e h) = (
    q,
    record { holds = v.holds; split = v.split; writer_ok = v.writer_ok; reader_ok = (refl, h) },
  )
  Step-Inv {q} v (nothing e f) =
      (q, record { holds = v.holds; split = v.split; writer_ok = v.writer_ok; reader_ok = tt })
  Step-Inv {q} v (some_bytes n e f h) = (q, some_bytes-Inv c v n e f)
  Step-Inv {q} v (copy_out e) = (q, copy_out-Inv c v e)
  Step-Inv v (release e) = (_, release-Inv c v e)

  pub Reach-Inv : {s : System} → Reach cap s → (q : List ℕ) × Inv cap s q
  Reach-Inv start = ([], begin-Inv cap)
  Reach-Inv (later r st) = let (q, v) = Reach-Inv r in Step-Inv v st
