-- ===== src/RateLimit/Laws.antt =====
-- Which requests share a counter.
use baja_valle_service.Prelude.{
  ℕ, ◌≡◌, ◌≢◌, ◌⊎◌, refl, true, Option, none, some, List, [], ◌∷◌, ◌++◌, inl, inr, arith, All, all,
  not, ◌==◌, ==_iff, Bool-cases,
}
use baja_valle_service.Text.{Text, codes}
use baja_valle_service.Text.Laws.{Lacks}
use baja_valle_service.RateLimit.{
  RateLimitEnv, Throttler, build_throttlers, get_tracker, generate_key,
}

-- Who is counted: a user, or an address.
abbrev pub who : Option Text → Text → Text ⊎ Text
who none ip = inr ip
who (some []) ip = inr ip
who (some (c ∷ s)) ip = inl (c ∷ s)

heads_apart : (a b : ℕ) (s t : Text) → a ≢ b → a ∷ s ≡ b ∷ t → ⊥
heads_apart a b s t differs e = differs (cc e)

get_tracker_injective :
    (u v : Option Text) (ip ip' : Text)
    → get_tracker u ip ≡ get_tracker v ip'
    → who u ip ≡ who v ip'
unfolding get_tracker
get_tracker_injective none none ip ip' e = cc
get_tracker_injective none (some []) ip ip' e = cc
get_tracker_injective none (some (d ∷ t)) ip ip' e =
    absurd (heads_apart b'i' b'u' _ _ (λ q. omega arith) e)
get_tracker_injective (some []) none ip ip' e = cc
get_tracker_injective (some []) (some []) ip ip' e = cc
get_tracker_injective (some []) (some (d ∷ t)) ip ip' e =
    absurd (heads_apart b'i' b'u' _ _ (λ q. omega arith) e)
get_tracker_injective (some (c ∷ s)) none ip ip' e =
    absurd (heads_apart b'u' b'i' _ _ (λ q. omega arith) e)
get_tracker_injective (some (c ∷ s)) (some []) ip ip' e =
    absurd (heads_apart b'u' b'i' _ _ (λ q. omega arith) e)
get_tracker_injective (some (c ∷ s)) (some (d ∷ t)) ip ip' e = cc

-- Texts before the first occurrence of a unit, and the rests behind it, agree.
before_unit :
    (c : ℕ) (a b s t : Text)
    → Lacks c a
    → Lacks c b
    → a ++ (c ∷ s) ≡ b ++ (c ∷ t)
    → (a ≡ b) × (s ≡ t)
before_unit c [] [] s t h k e = (refl, cc)
before_unit c [] (y ∷ b) s t h (k, _) e = absurd (k (cc e))
before_unit c (x ∷ a) [] s t (h, _) k e = absurd (h (cc e))
before_unit c (x ∷ a) (y ∷ b) s t (_, h) (_, k) e =
    let (front, rest) = before_unit c a b s t h k (cc e) in (cc (e, front), rest)

-- A key is that of one throttler name and one client.
generate_key_injective :
    (n m : Text) (u v : Option Text) (ip ip' : Text)
    → Lacks b':' n
    → Lacks b':' m
    → generate_key (get_tracker u ip) n ≡ generate_key (get_tracker v ip') m
    → (n ≡ m) × (who u ip ≡ who v ip')
unfolding generate_key
generate_key_injective n m u v ip ip' h k e =
    let (name, tracker) = before_unit b':' n m (get_tracker u ip) (get_tracker v ip') h k e in
    (name, get_tracker_injective u v ip ip' tracker)

of_test : (s : Text) → all (λ c. not (c == b':')) s ≡ true → Lacks b':' s
of_test [] h = tt
of_test (c ∷ s) h = elim (Bool-cases (c == b':')) [
  | inl hit ↦ ground arith
  | inr miss ↦ (λ e. ground (arith, ==_iff c b':'), of_test s (ground arith))
]

names-Lacks :
    (env : RateLimitEnv) → All (λ (t : Throttler). Lacks b':' t.name) (build_throttlers env)
unfolding build_throttlers
names-Lacks env = (
  of_test (codes "global") refl,
  (
    of_test (codes "form-minute") refl,
    (
      of_test (codes "form-day") refl,
      (
        of_test (codes "auth") refl,
        (of_test (codes "refresh") refl, (of_test (codes "profile") refl, tt)),
      ),
    ),
  ),
)

All-weaken :
    {A : Type 0} (P Q : A → Type 0) (xs : List A) → ((x : A) → P x → Q x) → All P xs → All Q xs
All-weaken P Q [] f h = tt
All-weaken P Q (x ∷ xs) f (h, k) = (f x h, All-weaken P Q xs f k)

-- Two requests share a counter of the configured throttlers only if the throttlers have the same name
-- and the requests are of the same user, or both without a user and of the same address; the route
-- does not matter.
pub build_throttlers_keys :
    (env : RateLimitEnv) (u v : Option Text) (ip ip' : Text)
    → All
        (λ (s : Throttler).
          All
            (λ (t : Throttler).
              generate_key (get_tracker u ip) s.name ≡ generate_key (get_tracker v ip') t.name
              → (s.name ≡ t.name) × (who u ip ≡ who v ip'))
            (build_throttlers env))
        (build_throttlers env)
build_throttlers_keys env u v ip ip' =
    All-weaken _ _ (build_throttlers env)
      (λ (s : Throttler) h.
        All-weaken _ _ (build_throttlers env)
          (λ (t : Throttler) k. generate_key_injective s.name t.name u v ip ip' h k)
          (names-Lacks env))
      (names-Lacks env)
