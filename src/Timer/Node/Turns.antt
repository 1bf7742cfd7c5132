-- ===== src/Timer/Node/Turns.antt =====
-- A node's turn: when it is due again, and what its event is told over its life.
use m_toolkit.Base.{
  ℕ, zero, suc, ◌+◌, ◌-◌, ◌*◌, ◌/◌, ◌%◌, ◌^◌, ◌≤◌, ◌<◌, ◌≡◌, refl, ap, ◌∙◌, Bool, true, false, ◌&&◌,
  not, Option, none, some, List, [], ◌∷◌, ◌++◌, arith, ◌==◌, if◌then◌else◌, Bool-cases, add64,
  sub64, ltb, inl, inr,
}
use native.Mathlib.Nat.{div-mul-le_self, div-add-mod', mod-lt}
use mathlib.Core.Path.{ap₂}
use native.Mathlib.Decide.{dec_lt}
use m_toolkit.Timer.Node.{
  is_negative, magnitude, quotient, less, TimerNode, Callback, on_trigger, on_stop, trigger,
  revised_expire, destroy, pause,
}

-- An interval that `AddNode` accepts, and that is not 0.
abbrev pub Steady : TimerNode → Type 0
Steady n = (0 < n.interval) × (n.interval < 2 ^ 32)

-- What the event of a node is told at the node's turn.
unfoldable pub told : TimerNode → List Callback
told n = if n.is_valid && not n.is_pause then (trigger n).1 else []

pub told-eq-trigger :
    (n : TimerNode) → n.is_valid ≡ true → n.is_pause ≡ false → told n ≡ (trigger n).1
unfolding told
told-eq-trigger n valid running =
    ap₂ (λ v p. if v && not p then (trigger n).1 else []) valid running

abbrev pub told_all : (ℕ → TimerNode) → List ℕ → List Callback
told_all nodes [] = []
told_all nodes (n ∷ ns) = told (nodes n) ++ told_all nodes ns

-- A node that fires on time is due an interval later, and is not revised.
pub trigger_on_time :
    (t : ℕ) (n : TimerNode)
    → t < 2 ^ 62
    → Steady n
    → n.expire + 1 ≡ t
    → n.is_valid ≡ true
    → ((trigger n).0.expire ≡ n.expire + n.interval)
      × ((trigger n).0.interval ≡ n.interval)
      × (revised_expire t (trigger n).0 ≡ some (trigger n).0)
unfolding trigger revised_expire
trigger_on_time t n bound steady e valid = (ground arith, ground arith, ground arith)

-- A call that stops or pauses a node leaves its times as they are.
pub destroy_times :
    (n : TimerNode) → ((destroy n).0.expire ≡ n.expire) × ((destroy n).0.interval ≡ n.interval)
unfolding destroy
destroy_times n = (ground arith, ground arith)

pub pause_times :
    (tick : ℕ) (n : TimerNode)
    → ((pause tick n).0.expire ≡ n.expire) × ((pause tick n).0.interval ≡ n.interval)
unfolding pause
pause_times tick n = (ground arith, ground arith)

-- The arithmetic of patterns in `RevisedExpire` for a late node, without the wraps.
late_parts :
    (t e : ℕ)
    → t < 2 ^ 62
    → e < t
    → (is_negative (sub64 e t) ≡ true) × (magnitude (sub64 e t) ≡ t - e)
late_parts t e bound late = (ground arith, ground arith)

quotient_small : (x y : ℕ) → x < 2 ^ 62 → y < 2 ^ 62 → quotient x y ≡ x / y
quotient_small x y hx hy = ground arith

less_small : (x y : ℕ) → x < 2 ^ 62 → y < 2 ^ 62 → less x y ≡ ltb x y
less_small x y hx hy = ground arith

revised_late :
    (t : ℕ) (n : TimerNode)
    → t < 2 ^ 62
    → n.interval < 2 ^ 62
    → n.expire < t
    → revised_expire t n ≡ (
        if ltb n.interval (t - n.expire)
        then (if n.interval == 0
            then none
            else some (record n {
              expire = add64 n.expire ((t - n.expire) / n.interval * n.interval % 2 ^ 64);
            }))
        else some n)
unfolding revised_expire
revised_late t n ht hi late =
    let (neg, mag) = late_parts t n.expire ht late in
    let lt = less_small n.interval (t - n.expire) hi (omega arith) in
    let q = quotient_small (t - n.expire) n.interval (omega arith) hi in
    let d = sub64 n.expire t in
    let result : Bool → Bool → ℕ → Option TimerNode = λ neg more q.
      if neg && more
      then (if n.interval == 0
          then none
          else some (record n { expire = add64 n.expire (q * n.interval % 2 ^ 64) }))
      else some n in
    ap (λ b. result b (less n.interval (magnitude d)) (quotient (magnitude d) n.interval)) neg
    ∙ ap (λ m. result true (less n.interval m) (quotient m n.interval)) mag
    ∙ ap₂ (result true) lt q

-- A node that is late by more than its interval is moved on by whole intervals, to within one interval
-- of the tick and not past it; one that is late by less, or not late, keeps its time. Nothing else
-- changes. With an interval of 0 a late node is divided by 0.
pub revised_expire-catches_up :
    (t : ℕ) (n : TimerNode)
    → t < 2 ^ 62
    → n.expire < 2 ^ 62
    → n.interval < 2 ^ 62
    → (0 < n.interval
        → (k : ℕ) × (e : ℕ) × (revised_expire t n ≡ some (record n { expire = e }))
          × (e ≡ n.expire + k * n.interval)
          × (t ≤ n.expire → k ≡ 0)
          × (n.expire < t → (e ≤ t) × (t ≤ e + n.interval)))
      × (n.interval ≡ 0 → n.expire < t → revised_expire t n ≡ none)
unfolding revised_expire
revised_expire-catches_up t n ht he hi = (
  λ pos. elim (dec_lt n.expire t) [
    | no soon ↦ (0, n.expire, ground arith, omega arith, λ _. refl, λ late. absurd (omega arith))
    | yes late ↦ elim (Bool-cases (ltb n.interval (t - n.expire))) [
      | inr little ↦ (
        0,
        n.expire,
        revised_late t n ht hi late ∙ rw little,
        omega arith,
        λ _. refl,
        λ _. (omega arith, ground arith),
      )
      | inl much ↦
          let k = (t - n.expire) / n.interval in
          let below : k * n.interval ≤ t - n.expire = div-mul-le_self (t - n.expire) n.interval in
          let rest = mod-lt (t - n.expire) pos in
          let whole = div-add-mod' (t - n.expire) n.interval in
          (
            k,
            n.expire + k * n.interval,
            revised_late t n ht hi late ∙ rw much (ground arith),
            refl,
            λ soon. absurd (omega arith),
            λ _. (omega arith, omega (arith, whole, rest)),
          )
    ]
  ],
  λ z late. ground arith,
)

-- `Trigger`, as long as the node is valid, up to `fuel` times.
pub fire : ℕ → TimerNode → List Callback
fire zero n = []
fire (suc fuel) n = elim n.is_valid [ true ↦ (trigger n).1 ++ fire fuel (trigger n).0 | false ↦ [] ]

abbrev pub triggers : ℕ → ℕ → List Callback
triggers zero event = []
triggers (suc k) event = on_trigger event ∷ triggers k event

trigger_last :
    (n : TimerNode)
    → n.is_valid ≡ true
    → n.count ≡ 1
    → trigger n ≡ (
      record n { is_valid = false; count = 0; expire = add64 n.expire n.interval },
      on_trigger n.event ∷ on_stop n.event false ∷ [],
    )
unfolding trigger
trigger_last n valid e = rw (valid, e)

trigger_more :
    (n : TimerNode) (c : ℕ)
    → n.is_valid ≡ true
    → n.count ≡ suc (suc c)
    → trigger n
      ≡ (record n { count = suc c; expire = add64 n.expire n.interval }, on_trigger n.event ∷ [])
unfolding trigger
trigger_more n c valid e = ground arith

fire_invalid : (fuel : ℕ) (n : TimerNode) → n.is_valid ≡ false → fire fuel n ≡ []
unfolding fire
fire_invalid zero n e = refl
fire_invalid (suc fuel) n e = rw e

-- A node that starts with a count other than 0 triggers its event that many times and then stops it,
-- once and not forced, however long its turns go on.
pub fire-count :
    (n : TimerNode) (count fuel : ℕ)
    → n.is_valid ≡ true
    → n.count ≡ suc count
    → count < fuel
    → fire fuel n ≡ triggers (suc count) n.event ++ on_stop n.event false ∷ []
unfolding fire
fire-count n count zero valid e enough = absurd (omega arith)
fire-count n zero (suc fuel) valid e enough =
    rw (valid, fire)
      (rw (trigger_last n valid e) (
        let ended = record n { is_valid = false; count = 0; expire = add64 n.expire n.interval } in
        ap (λ cs. on_trigger n.event ∷ on_stop n.event false ∷ cs) (fire_invalid fuel ended refl)))
fire-count n (suc count) (suc fuel) valid e enough =
    rw (valid, fire)
      (rw (trigger_more n count valid e) (
        let next = record n { count = suc count; expire = add64 n.expire n.interval } in
        ap (λ cs. on_trigger n.event ∷ cs) (fire-count next count fuel valid refl (omega arith))))
