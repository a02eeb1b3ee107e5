-- ===== src/DataLink/Laws.antt =====
-- The two conversions of `DataLink` are inverse to one another, but for two kinds of value.
use pcap_file.Common.{
  ℕ, List, [], ◌∷◌, ◌==◌, ◌≡◌, refl, ap, ◌∙◌, Bool, true, ◌&&◌, ◌≢◌, ◌⊎◌, inl, inr, arith,
}
use pcap_file.DataLink.{DataLink, matching_min, unknown, link_types, find_link, from_u32, to_u32}

arms_agree : List (ℕ × DataLink) → Bool
unfolding to_u32
arms_agree [] = true
arms_agree ((k, d) ∷ arms) = (to_u32 d == k) && arms_agree arms

to_u32-find_link :
    (n : ℕ) (arms : List (ℕ × DataLink)) → arms_agree arms ≡ true → to_u32 (find_link n arms) ≡ n
unfolding find_link arms_agree
to_u32-find_link n [] h = unfold to_u32 in refl
to_u32-find_link n ((k, d) ∷ arms) h = ground (arith, to_u32-find_link n arms)

arms_agree_lem : arms_agree link_types ≡ true
unfolding arms_agree to_u32
arms_agree_lem = refl

-- Every number is the number of the link type that it is read as.
pub to_u32-from_u32 : (n : ℕ) → to_u32 (from_u32 n) ≡ n
unfolding from_u32
to_u32-from_u32 n = to_u32-find_link n link_types arms_agree_lem

-- The constants of the type, as opposed to `Unknown`.
abbrev pub IsNamed : DataLink → Type 0
IsNamed (unknown _) = ⊥
IsNamed _ = Unit

IsNamed-or_unknown : (d : DataLink) → IsNamed d ⊎ ((n : ℕ) × (d ≡ unknown n))
IsNamed-or_unknown (unknown n) = inr (n, refl)
IsNamed-or_unknown _ = inl tt

-- A number that no named type has is unknown: what it is read as has that number again.
from_u32_unnamed : (n : ℕ) → ((d : DataLink) → IsNamed d → to_u32 d ≢ n) → from_u32 n ≡ unknown n
unfolding to_u32
from_u32_unnamed n h = elim (IsNamed-or_unknown (from_u32 n)) [
  | inl named ↦ absurd (h (from_u32 n) named (to_u32-from_u32 n))
  | inr (m, e) ↦ let same : m ≡ n = rw e at (to_u32-from_u32 n) in e ∙ ap unknown same
]

-- A link type survives the conversion to `u32` and back, unless it is the alias MATCHING_MIN or an
-- unknown type whose number `to_u32` gives to a named type.
pub from_u32-to_u32 :
    (d : DataLink)
    → d ≢ matching_min
    → ((n : ℕ) → d ≡ unknown n → (named : DataLink) → IsNamed named → to_u32 named ≢ n)
    → from_u32 (to_u32 d) ≡ d
unfolding from_u32 to_u32 find_link
from_u32-to_u32 matching_min h k = absurd (h refl)
from_u32-to_u32 (unknown n) h k = from_u32_unnamed n (k n refl)
from_u32-to_u32 _ h k = refl
