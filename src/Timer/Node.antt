-- ===== src/Timer/Node.antt =====
-- toolkit/source/timer/node.cpp and event.h: one timer, with its times in milliseconds. A time_t or
-- int64_t is its 64-bit pattern; sums and differences of patterns are those of the signed numbers.
pub mod Turns
use m_toolkit.Base.{
  ℕ, ◌-◌, ◌*◌, ◌/◌, ◌%◌, ◌^◌, Bool, true, false, not, ◌&&◌, ◌||◌, Option, none, some, List, [], ◌∷◌,
  ◌++◌, ltb, leb, ◌==◌, if◌then◌else◌, u64_mod, add64, sub64,
}

-- What an `ITimerEvent` is told; an event is named by a number, its identity.
pub data Callback : Type 0 where
  on_pause on_resume on_trigger : ℕ → Callback
  on_stop : ℕ → (forced : Bool) → Callback

pub record TimerNode : Type 0 where
  pub is_valid : Bool
  pub is_pause : Bool
  pub count : ℕ
  pub expire : ℕ
  pub interval : ℕ
  pub pause_tick : ℕ
  pub event : ℕ

-- The sign, the magnitude, the order and the quotient of the signed numbers that patterns stand for.
abbrev pub is_negative : ℕ → Bool
is_negative x = leb (2 ^ 63) x

abbrev pub magnitude : ℕ → ℕ
magnitude x = if is_negative x then sub64 0 x else x

abbrev pub less : ℕ → ℕ → Bool
less x y = ltb (add64 x (2 ^ 63)) (add64 y (2 ^ 63))

abbrev pub quotient : ℕ → ℕ → ℕ
quotient x y =
    let q = magnitude x / magnitude y in
    if is_negative x && not (is_negative y) || not (is_negative x) && is_negative y
    then sub64 0 q
    else q

unfoldable pub make : (event count expire interval : ℕ) → TimerNode
make event count expire interval = record {
  is_valid = true;
  is_pause = false;
  count = count;
  expire = expire;
  interval = interval;
  pause_tick = 0;
  event = event;
}

-- A method returns the node and the callbacks that it made, in order.
unfoldable pub destroy : TimerNode → TimerNode × List Callback
destroy n =
    if n.is_valid then (record n { is_valid = false }, on_stop n.event true ∷ []) else (n, [])

trigger_valid : TimerNode → TimerNode × List Callback
trigger_valid n =
    if n.is_valid
    then (if n.count == 0 then (record n { expire = add64 n.expire n.interval }, []) else (
      record n { expire = add64 n.expire n.interval; count = n.count - 1 },
      on_trigger n.event ∷ [],
    ))
    else (n, [])

unfoldable pub trigger : TimerNode → TimerNode × List Callback
unfolding trigger_valid
trigger n =
    let (n, told) = trigger_valid n in
    if n.count == 0
    then (record n { is_valid = false }, told ++ on_stop n.event false ∷ [])
    else (n, told)

unfoldable pub pause : ℕ → TimerNode → TimerNode × List Callback
pause tick n =
    if n.is_valid && not n.is_pause
    then (record n { is_pause = true; pause_tick = tick }, on_pause n.event ∷ [])
    else (n, [])

pub resume : ℕ → TimerNode → TimerNode × List Callback
resume tick n =
    if n.is_valid && n.is_pause
    then (
      record n { expire = sub64 (add64 tick n.expire) n.pause_tick; is_pause = false },
      on_resume n.event ∷ [],
    )
    else (n, [])

-- `none` is the division by an interval of 0.
pub revised_expire : ℕ → TimerNode → Option TimerNode
revised_expire tick n =
    let interval = sub64 n.expire tick in
    if is_negative interval && less n.interval (magnitude interval)
    then (if n.interval == 0
        then none
        else some (record n {
          expire = add64 n.expire (quotient (magnitude interval) n.interval * n.interval % u64_mod);
        }))
    else some n
