-- ===== src/Pipeline/Pcm.antt =====
-- The PCM decoder of shared/audio/audio_pipeline.c against a reading of 16-bit big-endian samples.
use protable_airplay.Base.{
  ℕ, zero, suc, ◌+◌, ◌*◌, ◌/◌, ◌%◌, ◌^◌, ◌≤◌, ◌<◌, ◌≡◌, refl, ap, ap₂, map, sym, ◌∙◌, Bool, true,
  false, ◌&&◌, not, Option, none, some, List, [], ◌∷◌, ◌++◌, ◌==◌, if◌then◌else◌, length, get_or,
  take, drop, min, Result, ok, fail, ◌>>=◌, read_lem, arith, inl, inr, Bool-cases, length-map,
  Returns, of_ok, of_fail,
}
use protable_airplay.Base.Int.{ℤ, signed16}
use protable_airplay.Crypto.Bounds.{KeepsLength}
use protable_airplay.Pipeline.{Pipeline, Externals, max_audio_buffer_samples}
use protable_airplay.Pipeline.Decrypt.{
  take-nil, take_all, decode_input-Returns, clear_text, decode_input_lem,
}
use protable_airplay.Pipeline.Decode.{pcm_loop, decode_pcm, decode_input, or_fail}

-- The samples of a text of bytes, two by two
unfoldable pub words : List ℕ → List ℤ
words [] = []
words (high ∷ []) = []
words (high ∷ low ∷ rest) = signed16 (high * 2 ^ 8 + low) ∷ words rest

drop_first : (xs : List ℕ) (i : ℕ) → i < length xs → drop i xs ≡ get_or xs i 0 ∷ drop (suc i) xs
drop_first [] i h = absurd (omega arith)
drop_first (x ∷ xs) zero h = refl
drop_first (x ∷ xs) (suc i) h = drop_first xs i (omega arith)

drop_two :
    (bs : List ℕ) (i j : ℕ)
    → i + 2 ≤ length bs
    → j ≡ i + 2
    → drop i bs ≡ get_or bs i 0 ∷ get_or bs (i + 1) 0 ∷ drop j bs
drop_two bs i j h e =
    drop_first bs i (omega arith)
    ∙ ap (◌∷◌ (get_or bs i 0)) (
        ap (λ m. drop m bs) (let f : suc i ≡ i + 1 = omega arith in f)
        ∙ drop_first bs (i + 1) (omega arith)
        ∙ ap (λ m. get_or bs (i + 1) 0 ∷ drop m bs)
            (let f : suc (i + 1) ≡ j = omega (arith, e) in f))

take-words :
    (bs : List ℕ) (i n : ℕ)
    → i * 2 + 2 ≤ length bs
    → take (suc n) (words (drop (i * 2) bs))
      ≡ signed16 (get_or bs (i * 2) 0 * 2 ^ 8 + get_or bs (i * 2 + 1) 0)
        ∷ take n (words (drop ((i + 1) * 2) bs))
unfolding words
take-words bs i n h = rw (drop_two bs (i * 2) ((i + 1) * 2) (omega arith) (omega arith)) refl

pcm_loop_lem :
    (bs : List ℕ) (i n : ℕ)
    → (i + n) * 2 ≤ length bs
    → pcm_loop bs i n ≡ ok (take n (words (drop (i * 2) bs)))
unfolding pcm_loop
pcm_loop_lem bs i zero h = refl
pcm_loop_lem bs i (suc n) h =
    rw
      (
        read_lem bs (i * 2) (omega arith),
        read_lem bs (i * 2 + 1) (omega arith),
        pcm_loop_lem bs (i + 1) n (omega arith),
        take-words bs i n (omega arith),
      )
      refl

-- The first samples of a text
abbrev pub sampled : List ℕ → Result (List ℤ)
sampled input = ok (take max_audio_buffer_samples (words input))

take_within : {A : Type 0} (xs : List A) (m : ℕ) → take (min (length xs) m) xs ≡ take m xs
take_within [] m = take-nil (min 0 m) ∙ sym (take-nil m)
take_within (y ∷ ys) zero = rw (let e : min (suc (length ys)) 0 ≡ 0 = omega arith in e) refl
take_within (y ∷ ys) (suc m) =
    rw (let e : min (suc (length ys)) (suc m) ≡ suc (min (length ys) m) = omega arith in e)
      (ap (◌∷◌ y) (take_within ys m))

length-words : (bs : List ℕ) → length (words bs) ≡ length bs / 2
unfolding words
length-words [] = refl
length-words (b ∷ []) = refl
length-words (a ∷ b ∷ rest) = omega (arith, length-words rest)

pcm_loop-sampled :
    (n : ℕ) (m : Result (List ℕ))
    → Returns (λ input. length input ≡ n) m
    → (m >>= λ input. pcm_loop input 0 (min (n / 2) max_audio_buffer_samples)) ≡ (m >>= sampled)
pcm_loop-sampled n _ of_fail = refl
pcm_loop-sampled n _ (of_ok input h) =
    pcm_loop_lem input 0 _ (omega (arith, h))
    ∙ ap ok (
        ap (λ m. take (min m max_audio_buffer_samples) (words input))
          (let e : n / 2 ≡ length (words input) = omega (arith, h, length-words input) in e)
        ∙ take_within (words input) max_audio_buffer_samples)

-- Whole frames of 16-bit samples
abbrev pub has_frames : ℕ → ℕ → Bool
has_frames channels n = not (channels == 0) && n % (2 * channels) == 0

pub decode_pcm-sampled :
    {L H V : Type 0} (x : Externals L H V) (p : Pipeline L H V) (payload : List ℕ)
    → KeepsLength x.crypto
    → decode_pcm x p payload ≡ (
        if has_frames p.session.channels (length payload)
        then (decode_input x p payload >>= sampled)
        else fail)
unfolding decode_pcm
decode_pcm-sampled x p payload k =
    elim (Bool-cases (has_frames p.session.channels (length payload))) [
      | inl b ↦ rw b (
          pcm_loop-sampled (length payload) (decode_input x p payload)
            (decode_input-Returns x p payload k))
      | inr b ↦ rw b refl
    ]

-- The first 2048 samples of a text, if there is one
abbrev pub first_words : Option (List ℕ) → Result (List ℤ)
first_words none = fail
first_words (some input) = ok (take 2048 (words input))

first_words-or_fail : (o : Option (List ℕ)) → (or_fail o >>= sampled) ≡ first_words o
first_words-or_fail none = refl
first_words-or_fail (some input) = refl

-- If mbedTLS keeps lengths, `audio_pipeline_decode_pcm` stays inside its buffers on any payload, and it
-- returns exactly what it should. The payload is cut here into whole blocks of 16 bytes and a tail of less. If
-- it has no whole frames, the result is an error. In a session with encryption AES-CBC decrypts the
-- blocks, where there are any, from the IV of the session; if that fails, or if the payload has more than
-- 4096 bytes, the result is an error. Otherwise it is the first 2048 big-endian samples of the plain
-- text and the tail.
pub decode_pcm_lem :
    {L H V : Type 0} (x : Externals L H V) (p : Pipeline L H V) (blocks tail : List ℕ)
    → KeepsLength x.crypto
    → length blocks % 16 ≡ 0
    → length tail < 16
    → decode_pcm x p (blocks ++ tail) ≡ (
        if has_frames p.session.channels (length (blocks ++ tail))
        then first_words (clear_text x p blocks tail)
        else fail)
decode_pcm_lem x p blocks tail l h k =
    decode_pcm-sampled x p (blocks ++ tail) l
    ∙ ap (λ m. if has_frames p.session.channels (length (blocks ++ tail)) then m else fail)
        (ap (λ m. m >>= sampled) (decode_input_lem blocks tail x p l h k)
          ∙ first_words-or_fail (clear_text x p blocks tail))

-- A sample as the sender writes it
abbrev pub pcm_bytes : List ℕ → List ℕ
pcm_bytes [] = []
pcm_bytes (w ∷ ws) = w / 2 ^ 8 ∷ w % 2 ^ 8 ∷ pcm_bytes ws

words-pcm_bytes : (ws : List ℕ) → words (pcm_bytes ws) ≡ map signed16 ws
unfolding words
words-pcm_bytes [] = refl
words-pcm_bytes (w ∷ ws) =
    ap₂ (◌∷◌) (ap (λ v. signed16 v) (let e : w / 2 ^ 8 * 2 ^ 8 + w % 2 ^ 8 ≡ w = omega arith in e))
      (words-pcm_bytes ws)

length-pcm_bytes : (ws : List ℕ) → length (pcm_bytes ws) ≡ length ws * 2
length-pcm_bytes [] = refl
length-pcm_bytes (w ∷ ws) = omega (arith, length-pcm_bytes ws)

-- What a sender writes in whole frames of at most 2048 samples, high byte first, the decoder of a session
-- without encryption returns. mbedTLS is taken to keep lengths.
pub decode_pcm-pcm_bytes :
    {L H V : Type 0} (x : Externals L H V) (p : Pipeline L H V) (ws : List ℕ)
    → KeepsLength x.crypto
    → p.session.has_encryption ≡ false
    → (not (p.session.channels == 0) && length (pcm_bytes ws) % (2 * p.session.channels) == 0)
      ≡ true
    → length ws ≤ max_audio_buffer_samples
    → decode_pcm x p (pcm_bytes ws) ≡ ok (map signed16 ws)
decode_pcm-pcm_bytes x p ws k plain whole small =
    decode_pcm-sampled x p (pcm_bytes ws) k
    ∙ rw (whole, plain, words-pcm_bytes ws)
        (ap ok (
          take_all max_audio_buffer_samples (map signed16 ws)
            (omega (arith, length-map ws signed16, small))))
