-- ===== src/SlideBuffer/Trace.antt =====
-- No sequence of calls tells a slide buffer from a byte queue of its capacity.
use socket_server_lib.Prelude.{
  ℕ, ◌+◌, ◌^◌, ◌≤◌, ◌<◌, ◌≡◌, refl, Bool, Option, some, List, [], ◌∷◌, arith, Ends, ◌>>=◌, length,
  take, drop, ap, subst, sym, Ends-some,
}
use socket_server_lib.SlideBuffer.{
  SlideBuffer, IsValid, contents, clear, enqueue, dequeue, pop, peek, get_size,
}
use socket_server_lib.SlideBuffer.Fifo.{
  Kept, put, skip, announced, length-contents, clear-IsValid, enqueue-put, dequeue-take, pop-skip,
  peek-announced,
}

-- `read out max` has the block that `out_` points to.
pub data Call : Type 0 where
  write : List ℕ → ℕ → Call
  read : List ℕ → ℕ → Call
  forget : ℕ → Call
  look : Call
  measure : Call
  wipe : Call

pub data Reply : Type 0 where
  status : Bool → Reply
  bytes : List ℕ → Reply
  number : ℕ → Reply
  done : Reply

pub call : SlideBuffer → Call → Option (Reply × SlideBuffer)
call s (write source n) = enqueue s (some source) n >>= λ r. some (status r.0, r.1)
call s (read out max) = dequeue s out max >>= λ r. some (bytes (take r.0 r.1), r.2)
call s (forget n) = pop s n >>= λ r. some (status r.0, r.1)
call s look = peek s >>= λ n. some (number n, s)
call s measure = some (number (get_size s), s)
call s wipe = some (done, clear s)

pub run : SlideBuffer → List Call → Option (List Reply)
run s [] = some []
run s (c ∷ cs) = call s c >>= λ r. run r.1 cs >>= λ rs. some (r.0 ∷ rs)

-- The same calls on a queue of at most `cap` bytes.
unfoldable pub call_queue : ℕ → List ℕ → Call → Reply × List ℕ
call_queue cap q (write source n) = let (b, q') = put cap q (take n source) in (status b, q')
call_queue cap q (read out max) = (bytes (take max q), drop max q)
call_queue cap q (forget n) = let (b, q') = skip q n in (status b, q')
call_queue cap q look = (number (announced q), q)
call_queue cap q measure = (number (length q), q)
call_queue cap q wipe = (done, [])

unfoldable pub run_queue : ℕ → List ℕ → List Call → List Reply
run_queue cap q [] = []
run_queue cap q (c ∷ cs) = let (r, q') = call_queue cap q c in r ∷ run_queue cap q' cs

-- The blocks that a caller passes are as long as it says, and the lengths are far from 2 ^ 32.
abbrev pub Fits : ℕ → Call → Type 0
Fits cap (write source n) = (n ≤ length source) × (n + cap < 2 ^ 32)
Fits cap (read out max) = max ≤ length out
Fits cap _ = Unit {0}

abbrev pub AllFit : ℕ → List Call → Type 0
AllFit cap [] = Unit {0}
AllFit cap (c ∷ cs) = Fits cap c × AllFit cap cs

call-refines :
    {s : SlideBuffer} (c : Call)
    → IsValid s
    → Fits s.capacity c
    → Ends
        (call s c)
        (λ r. Kept s r.1 × ((r.0, contents r.1) ≡ call_queue s.capacity (contents s) c))
unfolding call call_queue get_size clear
call-refines {s} (write source n) v f = ground (arith, enqueue-put v source n f.0)
call-refines {s} (read out max) v f = ground (arith, dequeue-take v out max f)
call-refines {s} (forget n) v f = ground (arith, pop-skip v n)
call-refines {s} look v f = ground (arith, peek-announced v)
call-refines {s} measure v f = ground (arith, length-contents v)
call-refines {s} wipe v f = ground (arith, clear-IsValid v)

run-cons :
    {s : SlideBuffer} (c : Call) (cs : List Call) (r : Reply × SlideBuffer)
    → call s c ≡ some r
    → Kept s r.1
    → (r.0, contents r.1) ≡ call_queue s.capacity (contents s) c
    → run r.1 cs ≡ some (run_queue r.1.capacity (contents r.1) cs)
    → run s (c ∷ cs) ≡ some (run_queue s.capacity (contents s) (c ∷ cs))
unfolding run run_queue
run-cons {s} c cs r e kept answer rest =
    rw (e, rest, kept.same_capacity) (ap (λ p. some (p.0 ∷ run_queue s.capacity p.1 cs)) answer)

-- A valid slide buffer answers every sequence of such calls, without an access outside its block,
-- as the queue of its contents does.
pub run-refines :
    {s : SlideBuffer} (cs : List Call)
    → IsValid s
    → AllFit s.capacity cs
    → run s cs ≡ some (run_queue s.capacity (contents s) cs)
unfolding run run_queue
run-refines [] v f = refl
run-refines {s} (c ∷ cs) v f =
    let w = Ends-some (call s c) _ (call-refines c v f.0) in
    run-cons c cs w.0 w.1 w.2.0 w.2.1 (
      run-refines {s = w.0.1} cs w.2.0.valid
        (subst (λ k. AllFit k cs) (sym w.2.0.same_capacity) f.1))
