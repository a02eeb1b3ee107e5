-- ===== src/ReadBuffer/Stateless.antt =====
-- Parsers without a state, as closures.
use pcap_file.Common.{
  ℕ, ◌≡◌, ◌≢◌, refl, ap, List, [], ◌++◌, All, Result, ok, err, panic, incomplete_buffer, io_error,
  invalid_field, utf8_error, from_utf8_error, invalid_interface_id,
}
use pcap_file.ByteOrder.{IsByte}
use pcap_file.ByteOrder.Ends.{Leaves}
use pcap_file.ByteOrder.Steps.{IsStable, Extends, Extends-ne-panic}
use pcap_file.ReadBuffer.{Closure}
use pcap_file.ReadBuffer.Parse.{IsLawful, ExtendsFrom}

abbrev pub stateless : {O : Type 0} → (List ℕ → Result (List ℕ × O)) → Closure (Unit {0}) O
stateless p s slice = (p slice, s)

pub result_of : {O : Type 0} {x y : Result (List ℕ × O) × Unit {0}} → x ≡ y → x.0 ≡ y.0
result_of e = ap (λ (x : _ × Unit {0}). x.0) e

stateless-ExtendsFrom :
    {O : Type 0} (more : List ℕ) (r q : Result (List ℕ × O))
    → Extends more r q
    → ExtendsFrom tt more (r, tt) (q, tt)
stateless-ExtendsFrom more (ok _) q h = ap (λ (x : Result (List ℕ × _)). (x, tt)) h
stateless-ExtendsFrom more (err incomplete_buffer) q h = refl
stateless-ExtendsFrom more (err (io_error _)) q h = h
stateless-ExtendsFrom more (err (invalid_field _)) q h = rw h
stateless-ExtendsFrom more (err utf8_error) q h = rw h
stateless-ExtendsFrom more (err from_utf8_error) q h = rw h
stateless-ExtendsFrom more (err (invalid_interface_id _)) q h = rw h
stateless-ExtendsFrom more panic q h = elim h [ ]

-- A stable parser that leaves an end of the slice and makes no I/O error is lawful as a closure.
pub stateless-IsLawful :
    {O : Type 0} (p : List ℕ → Result (List ℕ × O)) → Leaves p → IsStable p → IsLawful (stateless p)
stateless-IsLawful p leaves stable = record {
  leaves = λ s s' slice rem o bytes e. leaves slice rem o bytes (result_of e);
  extends = λ s slice more bytes.
      stateless-ExtendsFrom more (p slice) (p (slice ++ more)) (stable slice more bytes);
}

-- A stable parser does not panic.
pub stable-ne-panic :
    {O : Type 0} (p : List ℕ → Result (List ℕ × O)) (slice : List ℕ)
    → IsStable p
    → All IsByte slice
    → p slice ≢ panic
stable-ne-panic p slice stable bytes = Extends-ne-panic [] (p slice) _ (stable slice [] bytes)
