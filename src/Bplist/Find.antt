-- ===== src/Bplist/Find.antt =====
-- Which value `bplist_get` of shared/protocol/bplist.c returns.
use protable_airplay.Base.{
  recover, ℕ, zero, suc, ◌+◌, ◌*◌, ◌≤◌, ◌<◌, ◌≡◌, refl, ◌∙◌, Bool, true, false, List, none, some,
  ◌==◌, arith, Result, ok, fail, fault, ◌>>=◌,
}
use protable_airplay.Bplist.{Bplist, Object, object, object_at, reference, is_key, get_loop, get}

bind_assoc {ℓ κ μ} :
    {A : Type ℓ} {B : Type κ} {C : Type μ} (m : Result A) (g : A → Result B) (f : B → Result C)
    → (m >>= λ a. g a >>= f) ≡ (m >>= g >>= f)
bind_assoc (ok a) g f = refl
bind_assoc fail g f = refl
bind_assoc fault g f = refl

-- The test on the key of pair `i` of a dictionary whose references start at `pos`
unfoldable pub key_at : Bplist → List ℕ → ℕ → ℕ → Result Bool
key_at p key pos i = reference p (pos + i * p.ref_size) >>= is_key p key

get_loop-none :
    (p : Bplist) (key : List ℕ) (pos i left : ℕ)
    → ((k : ℕ) → i ≤ k → k < i + left → key_at p key pos k ≡ ok false)
    → get_loop p key pos i left ≡ ok none
unfolding get_loop key_at
get_loop-none p key pos i zero others = refl
get_loop-none p key pos i (suc left) others =
    bind_assoc (reference p (pos + i * p.ref_size)) (is_key p key) _
    ∙ rw (others i (omega arith) (omega arith))
        (get_loop-none p key pos (i + 1) left (λ k l m. others k (omega arith) (omega arith)))

-- If an object is a dictionary and none of its keys is a string with the bytes asked for, where each is
-- read without a fault, then `bplist_get` returns `BPLIST_NONE`.
pub get-Misses :
    (p : Bplist) (dict : ℕ) (o : Object) (key : List ℕ)
    → object p dict ≡ ok o
    → o.kind ≡ 13
    → ((k : ℕ) → k < o.count → key_at p key o.start k ≡ ok false)
    → get p (some dict) key ≡ ok none
unfolding get object_at recover
get-Misses p dict o key e f others =
    rw (e, kind) (get_loop-none p key o.start 0 o.count (λ k _ l. others k (omega arith)))
  where
    kind : (o.kind == 13) ≡ true
    kind = ground arith
