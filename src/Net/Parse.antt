-- ===== src/Net/Parse.antt =====
-- The text of an IPv4 address of src/net.rs, taken apart at its dots.
use open_kernel.Base.{
  ℕ, zero, suc, ◌+◌, ◌-◌, ◌*◌, ◌/◌, ◌%◌, ◌<◌, ◌≡◌, ◌≢◌, refl, sym, ap, ◌∙◌, true, List, [], ◌∷◌,
  arith, ◌==◌, nat_eq, nat_beq_iff, Str, digits, decimal, all_below, all_below_sound, ltb, inl, inr,
  Bool-cases,
}
use open_kernel.Base.Text.{split}
use open_kernel.Base.Text.Laws.{All-append, Lacks, split-append, split_of_Lacks}
use open_kernel.Net.Address.{Ipv4Addr, ip_to_string}

-- Each part of the address is a byte.
pub record IsAddr (a : Ipv4Addr) : Type 0 where
  pub octet0 : a.octet0 < 256
  pub octet1 : a.octet1 < 256
  pub octet2 : a.octet2 < 256
  pub octet3 : a.octet3 < 256

value_from : ℕ → Str → ℕ
value_from acc [] = acc
value_from acc (c ∷ s) = value_from (acc * 10 + (c - 48)) s

value_table : all_below 256 (λ n. value_from 0 (decimal n) == n) ≡ true
unfolding all_below digits value_from
value_table = refl

value-decimal : (n : ℕ) → n < 256 → value_from 0 (decimal n) ≡ n
value-decimal n h =
    (nat_beq_iff _ n).0 (all_below_sound 256 (λ m. value_from 0 (decimal m) == m) n value_table h)

decimal-injective : (m n : ℕ) → m < 256 → n < 256 → decimal m ≡ decimal n → m ≡ n
decimal-injective m n h k e = sym (value-decimal m h) ∙ ap (value_from 0) e ∙ value-decimal n k

digits-Lacks : (fuel n : ℕ) → Lacks 46 (digits fuel n)
unfolding digits
digits-Lacks zero n = tt
digits-Lacks (suc fuel) n = elim (Bool-cases (ltb n 10)) [
  | inl e ↦ rw e ((λ h. omega arith), tt)
  | inr e ↦ rw e (
      All-append (λ x. x ≢ 46) (digits fuel (n / 10)) ((48 + (n % 10)) ∷ [])
        (digits-Lacks fuel (n / 10)) ((λ h. omega arith), tt))
]

decimal-Lacks : (n : ℕ) → Lacks 46 (decimal n)
decimal-Lacks n = digits-Lacks (suc n) n

-- What is printed between the dots.
parts : Ipv4Addr → List Str
parts a = decimal a.octet0 ∷ decimal a.octet1 ∷ decimal a.octet2 ∷ decimal a.octet3 ∷ []

split-ip_to_string : (a : Ipv4Addr) → split 46 (ip_to_string a) ≡ parts a
unfolding ip_to_string parts
split-ip_to_string a = rw (
  split-append,
  split-append,
  split-append,
  split_of_Lacks 46 _ (decimal-Lacks a.octet0),
  split_of_Lacks 46 _ (decimal-Lacks a.octet1),
  split_of_Lacks 46 _ (decimal-Lacks a.octet2),
  split_of_Lacks 46 _ (decimal-Lacks a.octet3),
)

ip_eq :
    {a b : Ipv4Addr}
    → a.octet0 ≡ b.octet0
    → a.octet1 ≡ b.octet1
    → a.octet2 ≡ b.octet2
    → a.octet3 ≡ b.octet3
    → a ≡ b
ip_eq p q r s i = record { octet0 = p i; octet1 = q i; octet2 = r i; octet3 = s i }

-- Two addresses of bytes that are printed alike are the same address.
pub ip_to_string-injective :
    (a b : Ipv4Addr) → IsAddr a → IsAddr b → ip_to_string a ≡ ip_to_string b → a ≡ b
unfolding parts
ip_to_string-injective a b v w e =
    let same : parts a ≡ parts b =
      sym (split-ip_to_string a) ∙ ap (split 46) e ∙ split-ip_to_string b in
    let (p, q, r, s) = parts_eq same in
    ip_eq (decimal-injective a.octet0 b.octet0 v.octet0 w.octet0 p)
      (decimal-injective a.octet1 b.octet1 v.octet1 w.octet1 q)
      (decimal-injective a.octet2 b.octet2 v.octet2 w.octet2 r)
      (decimal-injective a.octet3 b.octet3 v.octet3 w.octet3 s)
  where
    parts_eq :
        {x y z t x' y' z' t' : Str}
        → x ∷ y ∷ z ∷ t ∷ [] ≡ x' ∷ y' ∷ z' ∷ t' ∷ []
        → (x ≡ x') × (y ≡ y') × (z ≡ z') × (t ≡ t')
    parts_eq h = (cc h, cc h, cc h, cc h)
