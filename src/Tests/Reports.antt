-- ===== src/Tests/Reports.antt =====
-- Lists of events that `epoll_wait` may report.
use mathlib.Core.List.{Mem, Nodup, Nodup-nil, Nodup-cons, mem-cons, not-mem-nil}
use mathlib.Core.Logic.Or
use async_event_loop.Base.{
  int_tests, ℕ, ℤ, ◌≡◌, Bool, true, false, Option, List, [], ◌∷◌, int_eqb, is_some, map, arith,
  if◌then◌else◌,
}
use async_event_loop.Kernel.{Event}

-- An event on the descriptor is in the list.
abbrev pub reports : ℤ → List Event → Bool
reports d [] = false
reports d (ev ∷ evs) = if int_eqb d ev.fd then true else reports d evs

-- Events on watched descriptors, each descriptor once.
abbrev pub is_report : (ℤ → Option ℕ) → List Event → Bool
is_report watching [] = true
is_report watching (ev ∷ evs) =
    if is_some (watching ev.fd)
    then (if reports ev.fd evs then false else is_report watching evs)
    else false

pub Mem-reports : (d : ℤ) (evs : List Event) → Mem d (map (λ ev. ev.fd) evs) → reports d evs ≡ true
Mem-reports d [] m = absurd (not-mem-nil m)
Mem-reports d (ev ∷ evs) m =
    Or.elim (hlevel) (mem-cons.0 m) (λ e. grind int_tests)
      (λ i. ground (arith, Mem-reports d evs i))

pub watched_of_report :
    (watching : ℤ → Option ℕ) (evs : List Event) (ev : Event)
    → is_report watching evs ≡ true
    → Mem ev evs
    → is_some (watching ev.fd) ≡ true
watched_of_report watching [] ev h m = absurd (not-mem-nil m)
watched_of_report watching (x ∷ evs) ev h m =
    Or.elim (hlevel) (mem-cons.0 m) (λ e. rw e (ground arith))
      (λ i. watched_of_report watching evs ev (ground arith) i)

pub once_of_report :
    (watching : ℤ → Option ℕ) (evs : List Event)
    → is_report watching evs ≡ true
    → Nodup (map (λ ev. ev.fd) evs)
once_of_report watching [] h = Nodup-nil
once_of_report watching (ev ∷ evs) h =
    Nodup-cons.1
      (λ m. ground (arith, Mem-reports ev.fd evs m), once_of_report watching evs (ground arith))
