-- ===== src/SpeakerPulseaudio/AudioStream/Protocol.antt =====
-- What the libraries allow to be asked, and what a stream was given to play.
use mathlib.Core.Path.{ap₂}
use mathlib.Core.List.{append_assoc, append-nil}
use m_toolkit.Base.{
  ℕ, suc, ◌+◌, ◌≡◌, refl, sym, ap, ◌∙◌, arith, true, false, Option, none, some, List, [], ◌∷◌, ◌++◌,
  if◌then◌else◌,
}
use m_toolkit.SpeakerPulseaudio.AudioStream.{
  PaCall, stream_new, set_write_callback, set_state_callback, disconnect, unref, write, sf_close,
  AudioStream, Played, close, close_calls,
}

-- All that was written, in order.
abbrev pub written : List PaCall → List ℕ
written [] = []
written (write bytes ∷ calls) = bytes ++ written calls
written (_ ∷ calls) = written calls

abbrev pub files_closed : List PaCall → ℕ
files_closed [] = 0
files_closed (sf_close ∷ calls) = suc (files_closed calls)
files_closed (_ ∷ calls) = files_closed calls

pub data Phase : Type 0 where
  unmade live ended : Phase

-- A stream is made once, and used only until it is released.
abbrev pub allowed : Phase → PaCall → Option Phase
allowed unmade (stream_new spec true) = some live
allowed unmade (stream_new spec false) = some unmade
allowed unmade sf_close = some unmade
allowed unmade _ = none
allowed live (stream_new spec made) = none
allowed live unref = some ended
allowed live _ = some live
allowed ended sf_close = some ended
allowed ended _ = none

abbrev pub protocol : Option Phase → List PaCall → Option Phase
protocol none calls = none
protocol (some phase) [] = some phase
protocol (some phase) (call ∷ calls) = protocol (allowed phase call) calls

pub written-append :
    (calls later : List PaCall) → written (calls ++ later) ≡ written calls ++ written later
written-append [] later = refl
written-append (write bytes ∷ calls) later =
    ap (λ l. bytes ++ l) (written-append calls later)
    ∙ sym (append_assoc bytes (written calls) (written later))
written-append (_ ∷ calls) later = written-append calls later

pub files_closed-append :
    (calls later : List PaCall)
    → files_closed (calls ++ later) ≡ files_closed calls + files_closed later
files_closed-append [] later = omega arith
files_closed-append (sf_close ∷ calls) later = omega (arith, files_closed-append calls later)
files_closed-append (_ ∷ calls) later = files_closed-append calls later

protocol-append :
    (phase : Option Phase) (calls later : List PaCall)
    → protocol phase (calls ++ later) ≡ protocol (protocol phase calls) later
protocol-append none calls later = refl
protocol-append (some phase) [] later = refl
protocol-append (some phase) (call ∷ calls) later = protocol-append (allowed phase call) calls later

pub protocol_after :
    (calls later : List PaCall) (phase : Phase)
    → protocol (some unmade) calls ≡ some phase
    → protocol (some unmade) (calls ++ later) ≡ protocol (some phase) later
protocol_after calls later phase so_far =
    protocol-append (some unmade) calls later ∙ ap (λ o. protocol o later) so_far

-- A stream that plays a file, and one that is closed.
pub record Playing (file : List ℕ) (p : Played) : Type 0 where
  pub left : List ℕ
  pub opened : p.0.sndfile ≡ some left
  pub made : p.0.stream ≡ true
  pub running : p.0.is_running ≡ true
  pub used : protocol (some unmade) p.1 ≡ some live
  pub held : files_closed p.1 ≡ 0
  pub whole : written p.1 ++ left ≡ file

pub record Closed (file : List ℕ) (p : Played) : Type 0 where
  pub left : List ℕ
  pub shut : p.0.sndfile ≡ none
  pub released : p.0.stream ≡ false
  pub stopped : p.0.is_running ≡ false
  pub used : protocol (some unmade) p.1 ≡ some ended
  pub freed : files_closed p.1 ≡ 1
  pub whole : written p.1 ++ left ≡ file

-- Calls that write nothing and keep the stream.
pub Playing-asks :
    (file : List ℕ) (t : AudioStream) (calls later : List PaCall)
    → Playing file (t, calls)
    → protocol (some live) later ≡ some live
    → written later ≡ []
    → files_closed later ≡ 0
    → Playing file (t, calls ++ later)
Playing-asks file t calls later p uses nothing keeps = record {
  left = p.left;
  opened = p.opened;
  made = p.made;
  running = p.running;
  used = protocol_after calls later live p.used ∙ uses;
  held = omega (arith, files_closed-append calls later, p.held, keeps);
  whole =
      ap (λ l. l ++ p.left)
        (written-append calls later
          ∙ ap (λ l. written calls ++ l) nothing
          ∙ append-nil (written calls))
      ∙ p.whole;
}

close_calls-open :
    (t : AudioStream) (left : List ℕ)
    → t.stream ≡ true
    → t.sndfile ≡ some left
    → close_calls t
      ≡ set_write_callback false ∷ set_state_callback false ∷ disconnect ∷ unref ∷ sf_close ∷ []
close_calls-open t left made opened =
    ap₂
      (λ b o.
        (if b
          then set_write_callback false ∷ set_state_callback false ∷ disconnect ∷ unref ∷ []
          else [])
        ++ elim o [ none ↦ [] | some _ ↦ sf_close ∷ [] ])
      made opened

pub close-Closed : (file : List ℕ) (p : Played) → Playing file p → Closed file (close p)
unfolding close
close-Closed file (t, calls) p =
    let freeing : List PaCall =
      set_write_callback false ∷ set_state_callback false ∷ disconnect ∷ unref ∷ sf_close ∷ [] in
    let same : close_calls t ≡ freeing = close_calls-open t p.left p.made p.opened in
    record {
      left = p.left;
      shut = refl;
      released = refl;
      stopped = refl;
      used =
          protocol_after calls (close_calls t) live p.used ∙ ap (λ l. protocol (some live) l) same;
      freed =
          files_closed-append calls (close_calls t) ∙ ap₂ (λ n l. n + files_closed l) p.held same;
      whole =
          ap (λ l. l ++ p.left)
            (written-append calls (close_calls t)
              ∙ ap (λ l. written calls ++ written l) same
              ∙ append-nil (written calls))
          ∙ p.whole;
    }
