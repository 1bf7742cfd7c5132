-- ===== src/Timer/Wheel.antt =====
-- toolkit/source/timer/manager.h and the part of manager.cpp that moves nodes through the wheels:
-- `AddNode`, `Cascade`, `ClearSpokes` and the turning of the near list in `Executes`.
-- Nodes live in a table and are named by numbers there, as the source shares them by `shared_ptr`.
pub mod Spokes
pub mod Due
pub mod Moves
pub mod Cascade
pub mod Cascades
pub mod Turn
use Prim.Native.Nat.{bit_and}
use m_toolkit.Base.{
  ℕ, zero, suc, ◌+◌, ◌-◌, ◌*◌, ◌/◌, ◌^◌, Bool, true, false, List, [], ◌∷◌, ◌++◌, ltb, leb, ◌==◌,
  if◌then◌else◌, add64, sub64,
}
use m_toolkit.Base.Maps.{update}
use m_toolkit.Timer.Node.{TimerNode, Callback, is_negative}

abbrev pub timer_wheel_num : ℕ
timer_wheel_num = 4

abbrev pub timer_near_bits : ℕ
timer_near_bits = 8

abbrev pub timer_wheel_bits : ℕ
timer_wheel_bits = 6

-- `callbacks` is what the events have been told, oldest first.
pub record TimerManager : Type 0 where
  pub running : Bool
  pub tick_time : ℕ
  pub last_time : ℕ
  pub near_list : ℕ → List ℕ
  pub wheel_list : ℕ → ℕ → List ℕ
  pub pauses : List (ℕ × ℕ)
  pub normals : List (ℕ × ℕ)
  pub managers : List (ℕ × ℕ)
  pub nodes : ℕ → TimerNode
  pub next_node : ℕ
  pub callbacks : List Callback

-- The exception that `AddNode` throws, the signal that a division by 0 raises, and a read of a map entry
-- that was erased, which C++ leaves undefined.
pub data Error : Type 0 where
  exceeds_limit division_by_zero erased_read : Error

pub data Run {ℓ} (A : Type ℓ) : Type ℓ where
  done : A → TimerManager → Run A
  thrown : Error → TimerManager → Run A

module _ {ℓ κ} {A : Type ℓ} {B : Type κ} where
  infixl 5 ◌>>=◌ ◌>>◌
  abbrev pub and_then : Run A → (A → TimerManager → Run B) → Run B
  and_then (done a s) k = k a s
  and_then (thrown e s) k = thrown e s

  abbrev pub ◌>>=◌ : (TimerManager → Run A) → (A → TimerManager → Run B) → TimerManager → Run B
  m >>= k = λ s. and_then (m s) k

  abbrev pub ◌>>◌ : (TimerManager → Run A) → (TimerManager → Run B) → TimerManager → Run B
  m >> k = m >>= λ _. k

-- `x & ((1 << k) - 1)`; `x >> k`, of which the source keeps only such low digits.
abbrev pub low_bits : ℕ → ℕ → ℕ
low_bits x k = bit_and x (2 ^ k - 1)

abbrev pub shift_right : ℕ → ℕ → ℕ
shift_right x k = x / 2 ^ k

abbrev pub push_near : ℕ → ℕ → TimerManager → TimerManager
push_near index node s = record s {
  near_list = update s.near_list index (s.near_list index ++ node ∷ []);
}

abbrev pub push_wheel : ℕ → ℕ → ℕ → TimerManager → TimerManager
push_wheel w index node s = record s {
  wheel_list =
      update s.wheel_list w (update (s.wheel_list w) index (s.wheel_list w index ++ node ∷ []));
}

-- Where `AddNode` puts a node.
pub data Place : Type 0 where
  near : ℕ → Place
  wheel : ℕ → ℕ → Place
  nowhere : Place

unfoldable pub choose : (tick expire : ℕ) → Place
choose tick expire =
    let offset = sub64 expire tick in
    if ltb offset (2 ^ timer_near_bits)
    then near (low_bits expire timer_near_bits)
    else (if ltb offset (2 ^ (timer_near_bits + timer_wheel_bits))
        then wheel 0 (low_bits (shift_right expire timer_near_bits) timer_wheel_bits)
        else (if ltb offset (2 ^ (timer_near_bits + 2 * timer_wheel_bits))
            then wheel 1 (
                low_bits (shift_right expire (timer_near_bits + timer_wheel_bits)) timer_wheel_bits)
            else (if ltb offset (2 ^ (timer_near_bits + 3 * timer_wheel_bits))
                then wheel 2 (
                    low_bits (shift_right expire (timer_near_bits + 2 * timer_wheel_bits))
                      timer_wheel_bits)
                else (if is_negative offset
                    then near (low_bits tick timer_near_bits)
                    else (if leb offset 0xffff_ffff
                        then wheel 3 (
                            low_bits (shift_right expire (timer_near_bits + 3 * timer_wheel_bits))
                              timer_wheel_bits)
                        else nowhere)))))

unfoldable pub put : ℕ → Place → TimerManager → Run (Unit {0})
put node (near index) s = done tt (push_near index node s)
put node (wheel w index) s = done tt (push_wheel w index node s)
put node nowhere s = thrown exceeds_limit s

unfoldable pub add_node : ℕ → TimerManager → Run (Unit {0})
unfolding put
add_node node s = put node (choose s.tick_time (s.nodes node).expire) s

unfoldable pub add_nodes : List ℕ → TimerManager → Run (Unit {0})
add_nodes [] s = done tt s
add_nodes (node ∷ nodes) s = (add_node node >> add_nodes nodes) s

-- The result says whether the wheel has come round, so that the next one turns too.
unfoldable pub cascade : (w index : ℕ) → TimerManager → Run Bool
cascade w index s =
    let spokes = s.wheel_list w index in
    let cleared = record s {
      wheel_list = update s.wheel_list w (update (s.wheel_list w) index []);
    } in
    (do add_nodes spokes; λ s. done (index == 0) s) cleared

abbrev pub wheel_index : ℕ → ℕ → ℕ
wheel_index tick w =
    low_bits (shift_right tick (timer_near_bits + w * timer_wheel_bits)) timer_wheel_bits

-- `a && b` of two calls.
abbrev pub both : (TimerManager → Run Bool) → (TimerManager → Run Bool) → TimerManager → Run Bool
both m k = m >>= λ b. if b then k else (λ s. done false s)

unfoldable pub cascades : TimerManager → Run (Unit {0})
cascades s =
    let tick = s.tick_time in
    if low_bits tick timer_near_bits == 0
    then (do
      round ←
          both (both (cascade 0 (wheel_index tick 0)) (cascade 1 (wheel_index tick 1)))
            (cascade 2 (wheel_index tick 2))
      if round then (cascade 3 (wheel_index tick 3) >> λ s. done tt s) else (λ s. done tt s))
        s
    else done tt s

-- The head of `Executes`: the nodes whose turn it is, out of the near list.
unfoldable pub turn : TimerManager → Run (List ℕ)
turn s =
    let index = low_bits s.tick_time timer_near_bits in
    (do
      cascades
      λ s.
          done (s.near_list index)
            (record s { tick_time = add64 s.tick_time 1; near_list = update s.near_list index [] }))
      s
