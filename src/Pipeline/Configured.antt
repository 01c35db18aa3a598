-- ===== src/Pipeline/Configured.antt =====
-- `audio_pipeline_configure` of shared/audio/audio_pipeline.c keeps the pipeline sound.
use protable_airplay.Base.{
  ℕ, ◌≡◌, refl, ap, ◌∙◌, Bool, true, false, not, Option, none, some, List, ◌==◌, length, inl, inr,
  Bool-cases,
}
use protable_airplay.Playout.Invariant as Queue
use protable_airplay.Pipeline.Invariant.{IsSound, stopped-IsSound}
use protable_airplay.Playout.Invariant.{reset-IsValid, set_floor-IsValid}
use protable_airplay.Buffered.Records as Stream
use protable_airplay.Ptp.{Network}
use protable_airplay.Pipeline.{
  Pipeline, Session, Externals, SdpCodec, stopped, ready, codec_unknown, codec_alac, codec_aac,
  codec_pcm,
}
use protable_airplay.Pipeline.Control.{
  is_unusable, or_alac, renewed, init_decoder, with_key, init_cipher, and_next, open_clock,
  made_ready, then_cipher, then_decoder, configure,
}

is_unusable-or_alac :
    (s : Session) → is_unusable (record s { codec = or_alac s.codec }) ≡ is_unusable s
unfolding is_unusable
is_unusable-or_alac s =
    elim s.codec
      as (λ c.
        is_unusable (record s { codec = or_alac c }) ≡ is_unusable (record s { codec = c })) [
          | codec_unknown ↦ refl
          | codec_alac ↦ refl
          | codec_aac ↦ refl
          | codec_pcm ↦ refl
        ]

module _ {L H V : Type 0} (x : Externals L H V) where
  -- A pipeline on its way to the session `s`
  record Staged (s : Session) (p : Pipeline L H V) : Type 0 where
    fresh_queue : Queue.IsValid p.playout
    fresh_stream : Stream.IsValid p.buffered
    session_is : p.session ≡ record s { codec = or_alac s.codec }
    not_configured : p.configured ≡ false
    is_stopped : p.state ≡ stopped

  Staged-IsSound : (s : Session) (p : Pipeline L H V) → Staged s p → IsSound p
  Staged-IsSound s p g =
      stopped-IsSound x p g.fresh_queue g.fresh_stream g.not_configured g.is_stopped

  init_decoder-Staged :
      (c : SdpCodec) (p : Pipeline L H V) (s t : Session)
      → Staged s p
      → Staged s (init_decoder x c p t).1
  unfolding init_decoder
  init_decoder-Staged codec_unknown p s t g = g
  init_decoder-Staged codec_pcm p s t g = g
  init_decoder-Staged codec_alac p s t g = record {
    fresh_queue = g.fresh_queue;
    fresh_stream = g.fresh_stream;
    session_is = g.session_is;
    not_configured = g.not_configured;
    is_stopped = g.is_stopped;
  }
  init_decoder-Staged codec_aac p s t g = record {
    fresh_queue = g.fresh_queue;
    fresh_stream = g.fresh_stream;
    session_is = g.session_is;
    not_configured = g.not_configured;
    is_stopped = g.is_stopped;
  }

  with_key-Staged :
      (s : Session) (p : Pipeline L H V) (iv : List ℕ) (o : Option (List ℕ))
      → Staged s p
      → Staged s (with_key x p iv o).1
  with_key-Staged s p iv none g = g
  with_key-Staged s p iv (some key) g = record {
    fresh_queue = g.fresh_queue;
    fresh_stream = g.fresh_stream;
    session_is = g.session_is;
    not_configured = g.not_configured;
    is_stopped = g.is_stopped;
  }

  init_cipher-Staged :
      (p : Pipeline L H V) (s t : Session) → Staged s p → Staged s (init_cipher x p t).1
  unfolding init_cipher
  init_cipher-Staged p s t g = elim (Bool-cases (not t.has_encryption)) [
    | inl e ↦ rw e g
    | inr e ↦ elim (Bool-cases (length t.aes_key_encrypted == 0)) [
      | inl f ↦ rw (e, f) g
      | inr f ↦ rw (e, f) (with_key-Staged s p t.aes_iv _ g)
    ]
  ]

  and_next-IsSound :
      (P : Pipeline L H V → Type 0) (r : Bool × Pipeline L H V)
      (next : Pipeline L H V → Bool × Pipeline L H V)
      → P r.1
      → ((q : Pipeline L H V) → P q → IsSound q)
      → ((q : Pipeline L H V) → P q → IsSound (next q).1)
      → IsSound (and_next x r next).1
  and_next-IsSound P (true, p) next g f h = h p g
  and_next-IsSound P (false, p) next g f h = f p g

  -- The end of `audio_pipeline_configure`
  ready-IsSound :
      (s : Session) (p : Pipeline L H V)
      → is_unusable s ≡ false
      → Staged s p
      → IsSound (record p { configured = true; state = ready })
  ready-IsSound s p e g = record {
    queue = g.fresh_queue;
    stream = g.fresh_stream;
    usable = λ h. ap is_unusable g.session_is ∙ (is_unusable-or_alac s ∙ e);
    active = λ h. refl;
  }

  open_clock-IsSound :
      (p : Pipeline L H V) (s : Session) (network : Network)
      → IsSound p
      → IsSound (open_clock x p s network).1
  open_clock-IsSound p s network i = elim (Bool-cases (s.stream_type == 0)) [
    | inl e ↦ rw e i
    | inr e ↦
        rw e (record { queue = i.queue; stream = i.stream; usable = i.usable; active = i.active })
  ]

  then_cipher-IsSound :
      (s : Session) (p : Pipeline L H V)
      → is_unusable s ≡ false
      → Staged s p
      → IsSound (then_cipher x s p).1
  then_cipher-IsSound s p e g =
      and_next-IsSound (Staged s) (init_cipher x p s) (made_ready x) (init_cipher-Staged p s s g)
        (Staged-IsSound s) λ q h. ready-IsSound s q e h

  then_decoder-IsSound :
      (s : Session) (p : Pipeline L H V)
      → is_unusable s ≡ false
      → IsSound p
      → IsSound (then_decoder x s p).1
  then_decoder-IsSound s p e i =
      and_next-IsSound (Staged s) (init_decoder x (or_alac s.codec) (renewed x p s p.ptp) s)
        (then_cipher x s)
        (init_decoder-Staged (or_alac s.codec) (renewed x p s p.ptp) s s (record {
          fresh_queue = i.queue;
          fresh_stream = i.stream;
          session_is = refl;
          not_configured = refl;
          is_stopped = refl;
        }))
        (Staged-IsSound s) λ q g. then_cipher-IsSound s q e g

  pub configure-IsSound :
      (p : Pipeline L H V) (s : Session) (network : Network)
      → IsSound p
      → IsSound (configure x p s network).1
  unfolding configure
  configure-IsSound p s network i = elim (Bool-cases (is_unusable s)) [
    | inl e ↦ rw e i
    | inr e ↦ rw e (
        and_next-IsSound IsSound (open_clock x p s network) (then_decoder x s)
          (open_clock-IsSound p s network i) (λ q g. g) λ q g. then_decoder-IsSound s q e g)
  ]
