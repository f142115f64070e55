-- ===== src/Command/Get/Bars.antt =====
-- How the loop of `runGet` ends, and which bars it tells of the end.
use p2p_storage.Base.{
  ℕ, suc, ◌+◌, ◌-◌, ◌≡◌, refl, sym, ap, ite, Bool, true, false, not, none, some, List, [], ◌∷◌,
  arith, if◌then◌else◌, length, keep, any, bytes_key, bytes_discrete,
}
use p2p_storage.Base.Forall.{All}
use p2p_storage.Base.Bytes.{Bytes}
use p2p_storage.Base.Int.{ℤ}
use p2p_storage.Operations as Operations
use p2p_storage.Operations.{Waited, timed_out, wait_for_get}
use p2p_storage.Command.Get.{
  BarCall, set_current, set_total, abort, Bar, Wake, cancelled, started, progress, complete,
  failure, Ended, received, not_received, interrupted, waiting, is_key, tell, get_loop,
}

abbrev is_closing : BarCall → Bool
is_closing (set_current n) = false
is_closing (set_total n) = true
is_closing abort = true

-- A bar that was told of no end: neither that it is complete nor that it is aborted. What the library
-- makes of the calls, such as a bar whose count reaches its total, is left open.
abbrev pub is_open : Bar → Bool
is_open b = not (any is_closing b.calls)

-- How often a transfer of the key is started before the loop ends.
abbrev pub starts : Bytes → List Wake → ℕ
starts key [] = 0
starts key (cancelled ∷ w) = 0
starts key (started none ∷ w) = starts key w
starts key (started (some (k, size)) ∷ w) = (if is_key key k then 1 else 0) + starts key w
starts key (progress p ∷ w) = starts key w
starts key (complete none ∷ w) = starts key w
starts key (complete (some (k, size)) ∷ w) =
    let rest = starts key w in if is_key key k then 0 else rest
starts key (failure none ∷ w) = starts key w
starts key (failure (some (k, e)) ∷ w) = let rest = starts key w in if is_key key k then 0 else rest

-- The file came, or a transfer failed.
abbrev pub Finishes : Ended → Type 0
Finishes received = Unit
Finishes (not_received e) = Unit
Finishes interrupted = ⊥
Finishes waiting = ⊥

abbrev AllOpen : List Bar → Type 0
AllOpen = All (λ b. is_open b ≡ true)

told-AllOpen : (n : ℤ) (bars : List Bar) → AllOpen bars → AllOpen (tell (set_current n ∷ []) bars)
told-AllOpen n [] h = tt
told-AllOpen n (b ∷ bars) h = h

running : (bars : List Bar) → AllOpen bars → length (keep is_open bars) ≡ length bars
running [] h = refl
running (b ∷ bars) h = rw h.0 (ap suc (running bars h.1))

told_length : (calls : List BarCall) (bars : List Bar) → length (tell calls bars) ≡ length bars
told_length calls [] = refl
told_length calls (b ∷ bars) = refl

closed :
    (c : BarCall) (cs : List BarCall) (bars : List Bar)
    → is_closing c ≡ true
    → AllOpen bars
    → length (keep is_open (tell (c ∷ cs) bars)) ≡ length bars - 1
closed c cs [] e h = refl
closed c cs (b ∷ bars) e h = rw e (omega (arith, running bars h.1))

-- What the wakes of `runGet` are to `WaitForGet`, which has no use for the others.
abbrev pub without_progress : List Wake → List Operations.Wake
without_progress [] = []
without_progress (cancelled ∷ w) = Operations.Wake.cancelled ∷ without_progress w
without_progress (started s ∷ w) = without_progress w
without_progress (progress p ∷ w) = without_progress w
without_progress (complete none ∷ w) = Operations.Wake.complete none ∷ without_progress w
without_progress (complete (some (k, n)) ∷ w) =
    Operations.Wake.complete (some k) ∷ without_progress w
without_progress (failure f ∷ w) = Operations.Wake.failure f ∷ without_progress w

abbrev pub as_waited : Bytes → Ended → Waited
as_waited key received = Waited.received key
as_waited key (not_received e) = Waited.not_received e
as_waited key interrupted = timed_out
as_waited key waiting = Waited.waiting

module _ (key : Bytes) where
  abbrev Ends : List Wake → List Bar → Type 0
  Ends w bars =
      (as_waited key (get_loop key w bars).1 ≡ wait_for_get key (without_progress w))
      × (Finishes (get_loop key w bars).1
          → (length (get_loop key w bars).0 ≡ length bars + starts key w)
            × (length (keep is_open (get_loop key w bars).0) ≡ length bars + starts key w - 1))

  -- The cases of an event, by whether it is of the key.
  started-Ends :
      {k : Bytes} (d : Dec (k ≡ key)) (size : ℤ) (w : List Wake) (bars : List Bar)
      → AllOpen bars
      → ((next : List Bar) → AllOpen next → Ends w next)
      → let loop =
          get_loop key w
            (if ite d true false then record { total = size; calls = [] } ∷ bars else bars) in
        (as_waited key loop.1 ≡ wait_for_get key (without_progress w))
        × (Finishes loop.1
            → (length loop.0 ≡ length bars + ((if ite d true false then 1 else 0) + starts key w))
              × (length (keep is_open loop.0)
                  ≡ length bars + ((if ite d true false then 1 else 0) + starts key w) - 1))
  started-Ends (yes e) size w bars h ih =
      let rest = ih (record { total = size; calls = [] } ∷ bars) (refl, h) in
      (rest.0, λ f. let counts = rest.1 f in (omega (arith, counts.0), omega (arith, counts.1)))
  started-Ends (no ne) size w bars h ih =
      let rest = ih bars h in
      (rest.0, λ f. let counts = rest.1 f in (omega (arith, counts.0), omega (arith, counts.1)))

  progress-Ends :
      {k : Bytes} (d : Dec (k ≡ key)) (n : ℤ) (w : List Wake) (bars : List Bar)
      → AllOpen bars
      → ((next : List Bar) → AllOpen next → Ends w next)
      → let loop =
          get_loop key w (if ite d true false then tell (set_current n ∷ []) bars else bars) in
        (as_waited key loop.1 ≡ wait_for_get key (without_progress w))
        × (Finishes loop.1
            → (length loop.0 ≡ length bars + starts key w)
              × (length (keep is_open loop.0) ≡ length bars + starts key w - 1))
  progress-Ends (yes e) n w bars h ih =
      let rest = ih (tell (set_current n ∷ []) bars) (told-AllOpen n bars h) in
      let same = told_length (set_current n ∷ []) bars in
      (
        rest.0,
        λ f.
            let counts = rest.1 f in (omega (arith, counts.0, same), omega (arith, counts.1, same)),
      )
  progress-Ends (no ne) n w bars h ih = ih bars h

  -- The end, for an event of the key, with what the last bar is told.
  ended :
      {k : Bytes} (d : Dec (k ≡ key)) (c : BarCall) (cs : List BarCall) (end : Ended)
      (result : Waited) (w : List Wake) (bars : List Bar)
      → is_closing c ≡ true
      → (k ≡ key → as_waited key end ≡ result)
      → AllOpen bars
      → Ends w bars
      → let rest = get_loop key w bars in
        let loop = if ite d true false then (tell (c ∷ cs) bars, end) else rest in
        let n = starts key w in
        (as_waited key loop.1 ≡ ite d result (wait_for_get key (without_progress w)))
        × (Finishes loop.1
            → (length loop.0 ≡ length bars + (if ite d true false then 0 else n))
              × (length (keep is_open loop.0)
                  ≡ length bars + (if ite d true false then 0 else n) - 1))
  ended (yes e) c cs end result w bars closing same h ih = (
    same e,
    λ f. (omega (arith, told_length (c ∷ cs) bars), omega (arith, closed c cs bars closing h)),
  )
  ended (no ne) c cs end result w bars closing same h ih = ih

  loop-Ends : (w : List Wake) (bars : List Bar) → AllOpen bars → Ends w bars
  unfolding get_loop wait_for_get
  loop-Ends [] bars h = (refl, λ f. elim f [ ])
  loop-Ends (cancelled ∷ w) bars h = (refl, λ f. elim f [ ])
  loop-Ends (started none ∷ w) bars h = loop-Ends w bars h
  loop-Ends (progress none ∷ w) bars h = loop-Ends w bars h
  loop-Ends (complete none ∷ w) bars h = loop-Ends w bars h
  loop-Ends (failure none ∷ w) bars h = loop-Ends w bars h
  loop-Ends (started (some (k, size)) ∷ w) bars h =
      started-Ends (bytes_discrete k key) size w bars h (loop-Ends w)
  loop-Ends (progress (some (k, n)) ∷ w) bars h =
      progress-Ends (bytes_discrete k key) n w bars h (loop-Ends w)
  loop-Ends (complete (some (k, size)) ∷ w) bars h =
      ended (bytes_discrete k key) (set_total size) (set_current size ∷ []) received
        (Waited.received k) w bars refl (λ e. ap Waited.received (sym e)) h (loop-Ends w bars h)
  loop-Ends (failure (some (k, e)) ∷ w) bars h =
      ended (bytes_discrete k key) abort [] (not_received e) (Waited.not_received e) w bars refl
        (λ same. refl) h (loop-Ends w bars h)

-- The loop of `runGet` ends as `WaitForGet` would on the same events, with the file, with the error of
-- the transfer, or interrupted.
get_loop-wait_for_get :
    (key : Bytes) (w : List Wake)
    → as_waited key (get_loop key w []).1 ≡ wait_for_get key (without_progress w)
get_loop-wait_for_get key w = (loop-Ends key w [] tt).0
