-- ===== src/Prelude/Chains.antt =====
-- Sequences of steps that a Boolean relation allows.
use mathlib.Core.Path.{◌≡◌, refl, subst, sym}
use mathlib.Core.Bool.{Bool, true}

module _ {A : Type 0} (allowed : A → A → Bool) where
  pub data Chain : A → A → Type 0 where
    done : {a : A} → Chain a a
    link : {a b c : A} → Chain a b → allowed b c ≡ true → Chain a c

  pub Chain-trans : {a b c : A} → Chain a b → Chain b c → Chain a c
  Chain-trans h done = h
  Chain-trans h (link k step) = link (Chain-trans h k) step

  pub Chain-of_eq : (a b : A) → b ≡ a → Chain a b
  Chain-of_eq a b e = subst (λ c. Chain a c) (sym e) done

  -- An element that no step leaves is kept.
  pub Chain-stuck :
      (a : A) (stuck : (c : A) → allowed a c ≡ true → c ≡ a) {b : A} → Chain a b → b ≡ a
  Chain-stuck a stuck done = refl
  Chain-stuck a stuck (link {b} {c} k step) =
      stuck c (subst (λ x. allowed x c ≡ true) (Chain-stuck a stuck k) step)
