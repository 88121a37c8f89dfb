-- ===== src/Comparable.antt =====
-- What the templates of src/xty_rbtree.h, src/xty_map.h and src/xty_queue.h ask of a data type:
-- the operators `<`, `>` and `==`, which the type brings along, and their documented meaning, a
-- strict weak order. Equal elements need not be identical: an xtyMapNode compares by its key.
pub mod Strings
use xty.Base.{ℕ, ◌≡◌, Bool, true, false, ltb, ◌==◌, arith}

pub record Comparable {ℓ} (A : Type ℓ) : Type ℓ where
  pub lt : A → A → Bool
  pub gt : A → A → Bool
  pub eq : A → A → Bool
  pub gt_lt : (a b : A) → gt a b ≡ lt b a
  pub lt_trans : (a b c : A) → lt a b ≡ true → lt b c ≡ true → lt a c ≡ true
  pub lt_ne : (a b : A) → lt a b ≡ true → (eq a b ≡ false) × (eq b a ≡ false) × (lt b a ≡ false)
  pub trichotomy : (a b : A) → eq a b ≡ false → lt b a ≡ false → lt a b ≡ true
  -- the order does not tell equal elements apart
  pub eq_lt :
      (a b c : A) → eq a b ≡ true → (lt a c ≡ lt b c) × (lt c a ≡ lt c b) × (eq c a ≡ eq c b)

pub nat_gt_lt : (a b : ℕ) → ltb b a ≡ ltb b a
nat_gt_lt a b = ground arith

pub nat_lt_trans : (a b c : ℕ) → ltb a b ≡ true → ltb b c ≡ true → ltb a c ≡ true
nat_lt_trans a b c h k = ground arith

pub nat_lt_ne :
    (a b : ℕ) → ltb a b ≡ true → ((a == b) ≡ false) × ((b == a) ≡ false) × (ltb b a ≡ false)
nat_lt_ne a b h = (ground arith, ground arith, ground arith)

pub nat_trichotomy : (a b : ℕ) → (a == b) ≡ false → ltb b a ≡ false → ltb a b ≡ true
nat_trichotomy a b h k = ground arith

pub nat_eq_lt :
    (a b c : ℕ)
    → (a == b) ≡ true
    → (ltb a c ≡ ltb b c) × (ltb c a ≡ ltb c b) × ((c == a) ≡ (c == b))
nat_eq_lt a b c h = (ground arith, ground arith, ground arith)

-- The machine integers, a template argument that meets all of it.
instance abbrev pub nat_comparable : Comparable ℕ
nat_comparable = record {
  lt = ltb;
  gt = λ a b. ltb b a;
  eq = ◌==◌;
  gt_lt = nat_gt_lt;
  lt_trans = nat_lt_trans;
  lt_ne = nat_lt_ne;
  trichotomy = nat_trichotomy;
  eq_lt = nat_eq_lt;
}
