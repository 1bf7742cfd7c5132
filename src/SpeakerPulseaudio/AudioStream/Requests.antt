-- ===== src/SpeakerPulseaudio/AudioStream/Requests.antt =====
-- What one write callback plays.
use mathlib.Core.Path.{ap₂}
use mathlib.Core.List.{append_assoc, append-nil}
use m_toolkit.Base.{
  ℕ, zero, suc, ◌+◌, ◌-◌, ◌<◌, ◌≤◌, ◌≡◌, refl, sym, ap, ◌∙◌, arith, Bool, true, false, Option, none,
  some, List, [], ◌∷◌, ◌++◌, length, length-append, ltb, leb, if◌then◌else◌, inl, inr, ◌⊎◌,
}
use m_toolkit.SpeakerPulseaudio.AudioStream.{
  set_write_callback, drain, Played, asks, Libraries, close, left_of, leave, written_call,
  request_turns,
}
use m_toolkit.SpeakerPulseaudio.AudioStream.Protocol.{
  written, written-append, files_closed, files_closed-append, live, protocol, protocol_after,
  Playing, Closed, Playing-asks, close-Closed,
}

-- libsndfile gives the bytes of the file in their order, and fewer than asked for only at its end;
-- libpulse takes at least one byte.
pub record Documented (lib : Libraries) : Type 0 where
  pub reads : (n : ℕ) (left : List ℕ) → (lib.read_raw n left).0 ++ (lib.read_raw n left).1 ≡ left
  pub ends :
      (n : ℕ) (left : List ℕ) → length (lib.read_raw n left).0 < n → (lib.read_raw n left).1 ≡ []
  pub takes : (turn n granted : ℕ) → lib.begin_write turn n ≡ some granted → 0 < granted

-- As much was written as was asked for, or the whole file.
abbrev pub Enough : (file : List ℕ) (target : ℕ) → Played → Type 0
Enough file target p = (target ≤ length (written p.1)) ⊎ (written p.1 ≡ file)

abbrev pub Turned : (file : List ℕ) (target : ℕ) → Option (Bool × Played) → Type 0
Turned file target none = ⊥
Turned file target (some (true, p)) = Closed file p
Turned file target (some (false, p)) = Playing file p × Enough file target p

written-written_call :
    (lib : Libraries) (bytes : List ℕ) → written (written_call lib bytes ∷ []) ≡ bytes
written-written_call lib [] = refl
written-written_call lib (b ∷ bytes) = append-nil (b ∷ bytes)

protocol-written_call :
    (lib : Libraries) (bytes : List ℕ)
    → protocol (some live) (written_call lib bytes ∷ []) ≡ some live
protocol-written_call lib [] = refl
protocol-written_call lib (b ∷ bytes) = refl

files_closed-written_call :
    (lib : Libraries) (bytes : List ℕ) → files_closed (written_call lib bytes ∷ []) ≡ 0
files_closed-written_call lib [] = refl
files_closed-written_call lib (b ∷ bytes) = refl

module _ (lib : Libraries) (documented : Documented lib) (file : List ℕ) where
  -- The stream after a turn has read and written `bytes`.
  abbrev turned : List ℕ × List ℕ → Played → Played
  turned (bytes, left) (t, calls) = (leave lib left t, calls ++ written_call lib bytes ∷ [])

  turned-Playing :
      (p : Played) (n : ℕ)
      → Playing file p
      → Playing file (turned (lib.read_raw n (left_of lib p.0)) p)
  turned-Playing (t, calls) n p =
      let (bytes, left) = lib.read_raw n (left_of lib t) in
      let was : left_of lib t ≡ p.left = ap (λ o. elim o [ none ↦ [] | some l ↦ l ]) p.opened in
      record {
        left = left;
        opened = ap (λ o. elim o [ none ↦ none | some _ ↦ some left ]) p.opened;
        made = p.made;
        running = p.running;
        used =
            protocol_after calls (written_call lib bytes ∷ []) live p.used
            ∙ protocol-written_call lib bytes;
        held =
            files_closed-append calls (written_call lib bytes ∷ [])
            ∙ ap₂ (λ a b. a + b) p.held (files_closed-written_call lib bytes);
        whole =
            ap (λ l. l ++ left)
              (written-append calls (written_call lib bytes ∷ [])
                ∙ ap (λ l. written calls ++ l) (written-written_call lib bytes))
            ∙ append_assoc (written calls) bytes left
            ∙ ap (λ l. written calls ++ l) (documented.reads n (left_of lib t) ∙ was)
            ∙ p.whole;
      }

  abbrev draining : Played → Played
  draining q = asks q (set_write_callback false ∷ drain ∷ [])

  draining-Playing : (q : Played) → Playing file q → Playing file (draining q)
  draining-Playing (t, calls) p =
      Playing-asks file t calls (set_write_callback false ∷ drain ∷ []) p refl refl refl

  written-draining : (q : Played) → written (draining q).1 ≡ written q.1
  written-draining (t, calls) =
      written-append calls (set_write_callback false ∷ drain ∷ []) ∙ append-nil (written calls)

  -- How a turn goes on.
  decided :
      (target : ℕ) (q : Played) (short made done : Bool) (others : Option (Bool × Played))
      → Playing file q
      → (short ≡ true → written q.1 ≡ file)
      → (done ≡ true → target ≤ length (written q.1))
      → (short ≡ false → done ≡ false → Turned file target others)
      → Turned file target (
          if short
          then some (if made then (false, draining q) else (true, close (draining q)))
          else (if done then some (false, q) else others))
  decided target q true true done others p all enough go =
      (draining-Playing q p, inr (written-draining q ∙ all refl))
  decided target q true false done others p all enough go =
      close-Closed file (draining q) (draining-Playing q p)
  decided target q false made true others p all enough go = (p, inl (enough refl))
  decided target q false made false others p all enough go = go refl refl

  pub request_turns-Turned :
      (fuel turn requested target : ℕ) (p : Played)
      → Playing file p
      → requested < fuel
      → target ≤ length (written p.1) + requested
      → Turned file target (request_turns lib fuel turn requested p)
  unfolding request_turns turned-Playing
  request_turns-Turned zero turn requested target p v enough far = absurd (omega arith)
  request_turns-Turned (suc fuel) turn requested target (t, calls) v enough far =
      either (lib.begin_write turn requested) refl (λ n q_Playing less more.
        request_turns-Turned fuel (turn + 1) (requested - length (lib.read_raw n (left_of lib t)).0)
          target (turned (lib.read_raw n (left_of lib t)) (t, calls)) q_Playing less more)
    where
      either :
          (o : Option ℕ)
          → lib.begin_write turn requested ≡ o
          → ((n : ℕ)
              → Playing file (turned (lib.read_raw n (left_of lib t)) (t, calls))
              → requested - length (lib.read_raw n (left_of lib t)).0 < fuel
              → target
                ≤ length (written (turned (lib.read_raw n (left_of lib t)) (t, calls)).1)
                  + (requested - length (lib.read_raw n (left_of lib t)).0)
              → Turned file target (
                  request_turns lib fuel
                    (turn + 1)
                    (requested - length (lib.read_raw n (left_of lib t)).0)
                    (turned (lib.read_raw n (left_of lib t)) (t, calls))))
          → Turned file target (elim o [
            | none ↦ some (true, close (t, calls))
            | some n ↦
                let (bytes, left) = lib.read_raw n (left_of lib t) in
                let q : Played = (leave lib left t, calls ++ written_call lib bytes ∷ []) in
                if ltb (length bytes) n
                then some
                    (if lib.drain_made then (false, draining q) else (true, close (draining q)))
                else (if leb requested (length bytes)
                    then some (false, q)
                    else request_turns lib fuel (turn + 1) (requested - length bytes) q)
          ])
      either none e go = close-Closed file (t, calls) v
      either (some n) e go =
          let (bytes, left) = lib.read_raw n (left_of lib t) in
          let q : Played = turned (lib.read_raw n (left_of lib t)) (t, calls) in
          let q_Playing : Playing file q = turned-Playing (t, calls) n v in
          let sum : length (written q.1) ≡ length (written calls) + length bytes =
            ap length (
              written-append calls (written_call lib bytes ∷ [])
              ∙ ap (λ l. written calls ++ l) (written-written_call lib bytes))
            ∙ length-append (written calls) bytes in
          let some_taken : 0 < n = documented.takes turn requested n e in
          decided target q (ltb (length bytes) n) lib.drain_made (leb requested (length bytes)) _
            q_Playing
            (λ short.
              let nothing : left ≡ [] = documented.ends n (left_of lib t) (ground (arith, short)) in
              sym (append-nil (written q.1))
              ∙ ap (λ l. written q.1 ++ l) (sym nothing)
              ∙ q_Playing.whole)
            (λ done. let large : requested ≤ length bytes = ground (arith, done) in omega arith)
            (λ long more.
              let at_least : n ≤ length bytes = ground (arith, long) in
              let smaller : length bytes < requested = ground (arith, more) in
              go n q_Playing (omega arith) (omega arith))
