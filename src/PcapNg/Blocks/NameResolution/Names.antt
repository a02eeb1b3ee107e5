-- ===== src/PcapNg/Blocks/NameResolution/Names.antt =====
-- The names of a name resolution record, written and read back.
use pcap_file.Common.{
  ℕ, ◌≤◌, ◌<◌, ◌≡◌, ◌≢◌, refl, sym, ap, ◌∙◌, List, [], ◌∷◌, ◌++◌, append_assoc, append-nil, length,
  length-append, take-append, drop-append, All, ok, arith, le→ltb, ne→==, slice_to_lem,
  slice_from_lem, true,
}
use mathlib.Core.List.{reverse, reverse_aux}
use pcap_file.Utf8.{is_utf8, from_utf8}
use pcap_file.PcapNg.Blocks.NameResolution.{
  Ipv4Record, Ipv6Record, split, parse_names, write_names, ipv4_from_slice, ipv6_from_slice,
  ipv4_write_to, ipv6_write_to,
}

-- A name that a zero byte can close.
abbrev pub IsName : List ℕ → Type 0
IsName name = (0 < length name) × All (λ (b : ℕ). b ≢ 0) name × (is_utf8 name ≡ true)

reverse_aux_append : (xs rest : List ℕ) → reverse_aux xs rest ≡ reverse xs ++ rest
reverse_aux_append [] rest = refl
reverse_aux_append (x ∷ xs) rest =
    reverse_aux_append xs (x ∷ rest)
    ∙ sym (append_assoc (reverse xs) (x ∷ []) rest)
    ∙ ap (λ (l : List ℕ). l ++ rest) (sym (reverse_aux_append xs (x ∷ [])))

-- The piece up to the zero byte that closes a name.
split_name :
    (piece name rest : List ℕ)
    → All (λ (b : ℕ). b ≢ 0) name
    → split piece (name ++ (0 ∷ rest)) ≡ (reverse piece ++ name) ∷ split [] rest
unfolding split
split_name piece [] rest h =
    ap (λ (x : List ℕ). x ∷ split [] rest) (sym (append-nil (reverse piece)))
split_name piece (b ∷ bs) rest (n, h) = rw (ne→== b 0 n) (
    split_name (b ∷ piece) bs rest h
    ∙ ap (λ (l : List ℕ). (l ++ bs) ∷ split [] rest) (reverse_aux_append piece (b ∷ []))
    ∙ ap (λ (l : List ℕ). l ∷ split [] rest) (append_assoc (reverse piece) (b ∷ []) bs))

pub parse_names-write_names :
    (names : List (List ℕ))
    → All IsName names
    → parse_names (split [] (write_names names).0) ≡ ok names
unfolding parse_names split write_names from_utf8
parse_names-write_names [] h = refl
parse_names-write_names (name ∷ names) ((l, z, u), h) = rw (
  split_name [] name (write_names names).0 z,
  ne→== (length name) 0 (λ q. omega (arith, l, q)),
  u,
  parse_names-write_names names h,
)

pub length-write_names :
    (names : List (List ℕ)) → length (write_names names).0 ≡ (write_names names).1
unfolding write_names
length-write_names [] = refl
length-write_names (name ∷ names) =
    omega (arith, length-append name (0 ∷ (write_names names).0), length-write_names names)

write_names_long :
    (names : List (List ℕ)) → All IsName names → 0 < length names → 2 ≤ length (write_names names).0
unfolding write_names
write_names_long [] h n = absurd (omega (arith, n))
write_names_long (name ∷ names) ((l, _, _), h) n =
    omega (arith, l, length-append name (0 ∷ (write_names names).0))

-- The names of a record: one at least.
abbrev pub IsNames : List (List ℕ) → Type 0
IsNames names = (0 < length names) × All IsName names

pub ipv4_from_slice-write_to :
    (r : Ipv4Record)
    → length r.ip_addr ≡ 4
    → IsNames r.names
    → ipv4_from_slice (ipv4_write_to r).0 ≡ ok r
unfolding ipv4_from_slice ipv4_write_to
ipv4_from_slice-write_to r l (n, h) = rw (
  le→ltb (length (r.ip_addr ++ (write_names r.names).0)) 6 long,
  slice_to_lem 4 (r.ip_addr ++ (write_names r.names).0) (omega (arith, long)),
  slice_from_lem 4 (r.ip_addr ++ (write_names r.names).0) (omega (arith, long)),
  take-append 4 r.ip_addr (write_names r.names).0 l,
  drop-append 4 r.ip_addr (write_names r.names).0 l,
  parse_names-write_names r.names h,
  ne→== (length r.names) 0 (λ q. omega (arith, n, q)),
)
  where
    long : 6 ≤ length (r.ip_addr ++ (write_names r.names).0)
    long =
        omega
          (arith, length-append r.ip_addr (write_names r.names).0, l, write_names_long r.names h n)

pub ipv6_from_slice-write_to :
    (r : Ipv6Record)
    → length r.ip_addr ≡ 16
    → IsNames r.names
    → ipv6_from_slice (ipv6_write_to r).0 ≡ ok r
unfolding ipv6_from_slice ipv6_write_to
ipv6_from_slice-write_to r l (n, h) = rw (
  le→ltb (length (r.ip_addr ++ (write_names r.names).0)) 18 long,
  slice_to_lem 16 (r.ip_addr ++ (write_names r.names).0) (omega (arith, long)),
  slice_from_lem 16 (r.ip_addr ++ (write_names r.names).0) (omega (arith, long)),
  take-append 16 r.ip_addr (write_names r.names).0 l,
  drop-append 16 r.ip_addr (write_names r.names).0 l,
  parse_names-write_names r.names h,
  ne→== (length r.names) 0 (λ q. omega (arith, n, q)),
)
  where
    long : 18 ≤ length (r.ip_addr ++ (write_names r.names).0)
    long =
        omega
          (arith, length-append r.ip_addr (write_names r.names).0, l, write_names_long r.names h n)

-- The counts are those of the bytes.
pub length-ipv4_write_to :
    (r : Ipv4Record) → length r.ip_addr ≡ 4 → length (ipv4_write_to r).0 ≡ (ipv4_write_to r).1
unfolding ipv4_write_to
length-ipv4_write_to r l =
    omega (arith, length-append r.ip_addr (write_names r.names).0, l, length-write_names r.names)

pub length-ipv6_write_to :
    (r : Ipv6Record) → length r.ip_addr ≡ 16 → length (ipv6_write_to r).0 ≡ (ipv6_write_to r).1
unfolding ipv6_write_to
length-ipv6_write_to r l =
    omega (arith, length-append r.ip_addr (write_names r.names).0, l, length-write_names r.names)
