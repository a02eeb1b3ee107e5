-- ===== src/ReadBuffer/Fill.antt =====
-- What filling and advancing do to the bounds, the window and the stream behind them.
use pcap_file.Common.{
  ℕ, ◌+◌, ◌-◌, ◌≤◌, ◌<◌, ◌≡◌, refl, sym, ap, ◌∙◌, List, [], ◌∷◌, ◌++◌, append_assoc, length, take,
  drop, length-append, length-take, length-drop, length-replicate, take-append, take-append-drop,
  drop-append, drop-append_le, take-append_add, drop-take, drop_add, Option, none, some, Bool-cases,
  inl, inr, ok, leb, le→leb, arith,
}
use pcap_file.ReadBuffer.{
  chunk, fault, Source, read, ReadBuffer, IsValid, with_capacity, window, refilled, fill_buf,
  advance_with_slice,
}

-- All bytes that a source still delivers.
abbrev pub pending : Source → List ℕ
pending [] = []
pending (chunk c ∷ es) = c ++ pending es
pending (fault ∷ es) = pending es

-- The bytes that a client of the buffer has not consumed yet, read or not.
abbrev pub stream : ReadBuffer → List ℕ
stream rb = window rb ++ pending rb.reader

answered :
    (room : ℕ) (b bytes : List ℕ) (r es' : Source)
    → length b ≤ room
    → ◌≡◌ {A = Option (List ℕ) × Source} (some b, r) (some bytes, es')
    → (length bytes ≤ room) × (b ++ pending r ≡ bytes ++ pending es')
answered room b bytes r es' le q =
    let hb : b ≡ bytes = cc (ap (λ (x : Option (List ℕ) × Source). x.0) q) in
    let he : r ≡ es' = ap (λ (x : Option (List ℕ) × Source). x.1) q in rw (← hb, ← he) (le, refl)

-- A read stays within its room, and what it returns comes from the front of the pending bytes.
pub read_lem :
    (room : ℕ) (es es' : Source) (bytes : List ℕ)
    → read room es ≡ (some bytes, es')
    → (length bytes ≤ room) × (pending es ≡ bytes ++ pending es')
unfolding read
read_lem room [] es' bytes h = answered room [] bytes [] es' (omega arith) h
read_lem room (fault ∷ es) es' bytes h = cc (ap (λ (x : Option (List ℕ) × Source). x.0) h)
read_lem room (chunk c ∷ es) es' bytes h = elim (Bool-cases (leb (length c) room)) [
  | inl fits ↦ answered room c bytes es es' (ground arith) (rw fits at h)
  | inr long ↦
      let (le, same) =
        answered room (take room c) bytes (chunk (drop room c) ∷ es) es'
          (omega (arith, length-take room c)) (rw long at h) in
      (
        le,
        ap (λ (x : List ℕ). x ++ pending es) (sym (take-append-drop room c))
            ∙ append_assoc (take room c) (drop room c) (pending es)
            ∙ same,
      )
]

pub length-window : (rb : ReadBuffer) → IsValid rb → length (window rb) ≡ rb.len - rb.pos
length-window rb v =
    omega
      (arith, length-take (rb.len - rb.pos) (drop rb.pos rb.buffer), length-drop rb.pos rb.buffer)

-- What `fill_buf` does where the reader answers with bytes.
pub record Filled (rb : ReadBuffer) (n : ℕ) (rb' : ReadBuffer) : Type 0 where
  pub valid : IsValid rb'
  pub capacity : length rb'.buffer ≡ length rb.buffer
  pub same_stream : stream rb' ≡ stream rb
  pub got : List ℕ
  pub got_length : length got ≡ n
  pub grown : window rb' ≡ window rb ++ got

-- What it does where the reader fails: the bounds hold as before.
pub record Failed (rb rb' : ReadBuffer) : Type 0 where
  pub valid : IsValid rb'
  pub capacity : length rb'.buffer ≡ length rb.buffer

window-refilled :
    (a b c : List ℕ) (n : ℕ) → length a + length b ≡ n → take n (a ++ (b ++ c)) ≡ a ++ b
window-refilled a b c n h =
    ap (take n) (sym (append_assoc a b c)) ∙ take-append n (a ++ b) c (length-append a b ∙ h)

refilled-Filled :
    (rb : ReadBuffer) (bytes : List ℕ) (es : Source)
    → IsValid rb
    → length bytes ≤ length rb.buffer - (rb.len - rb.pos)
    → pending rb.reader ≡ bytes ++ pending es
    → Filled rb (length bytes) (refilled rb (some bytes, es)).1
unfolding refilled
refilled-Filled rb bytes es v le same =
    let lw = length-window rb v in
    let total : length
          (window rb ++ (bytes ++ drop (length bytes) (drop (rb.len - rb.pos) rb.buffer)))
        ≡ length rb.buffer =
      omega (
        arith,
        length-append (window rb) (bytes ++ drop (length bytes) (drop (rb.len - rb.pos) rb.buffer)),
        length-append bytes (drop (length bytes) (drop (rb.len - rb.pos) rb.buffer)),
        length-drop (length bytes) (drop (rb.len - rb.pos) rb.buffer),
        length-drop (rb.len - rb.pos) rb.buffer,
      ) in
    let w =
      window-refilled (window rb) bytes (drop (length bytes) (drop (rb.len - rb.pos) rb.buffer))
        (rb.len - rb.pos + length bytes - 0) (omega arith) in
    record {
      valid = record { pos-le-len = omega arith; len-le-capacity = omega arith };
      capacity = total;
      same_stream =
          ap (λ (x : List ℕ). x ++ pending es) w
          ∙ append_assoc (window rb) bytes (pending es)
          ∙ ap (◌++◌ (window rb)) (sym same);
      got = bytes;
      got_length = refl;
      grown = w;
    }

refilled-Failed :
    (rb : ReadBuffer) (es : Source) → IsValid rb → Failed rb (refilled rb (none, es)).1
unfolding refilled
refilled-Failed rb es v =
    let lw = length-window rb v in
    let total : length (window rb ++ drop (rb.len - rb.pos) rb.buffer) ≡ length rb.buffer = omega (
      arith,
      length-append (window rb) (drop (rb.len - rb.pos) rb.buffer),
      length-drop (rb.len - rb.pos) rb.buffer,
    ) in
    record {
      valid = record { pos-le-len = v.pos-le-len; len-le-capacity = omega arith };
      capacity = total;
    }

-- What an answer of `fill_buf` says, by its kind.
abbrev pub FillResult : ReadBuffer → Option ℕ × ReadBuffer → Type 0
FillResult rb (none, rb') = Failed rb rb'
FillResult rb (some n, rb') = Filled rb n rb'

-- On a valid buffer, `fill_buf` keeps the capacity and the bounds. Where the reader answers with bytes, it appends them
-- to the window, and no byte of the stream is lost, doubled or moved.
pub fill_buf-FillResult : (rb : ReadBuffer) → IsValid rb → FillResult rb (fill_buf rb)
unfolding fill_buf
fill_buf-FillResult rb v = go (read (length rb.buffer - (rb.len - rb.pos)) rb.reader) refl
  where
    go :
        (answer : Option (List ℕ) × Source)
        → read (length rb.buffer - (rb.len - rb.pos)) rb.reader ≡ answer
        → FillResult rb (refilled rb answer)
    go (none, es) e = refilled-Failed rb es v
    go (some bytes, es) e =
        let (le, same) = read_lem _ rb.reader es bytes e in refilled-Filled rb bytes es v le same

pub with_capacity-IsValid :
    (reader : Source) (capacity : ℕ)
    → IsValid (with_capacity reader capacity)
      × (stream (with_capacity reader capacity) ≡ pending reader)
      × (length (with_capacity reader capacity).buffer ≡ capacity)
unfolding with_capacity
with_capacity-IsValid reader capacity = (
  record { pos-le-len = omega arith; len-le-capacity = omega arith },
  refl,
  length-replicate capacity 0,
)

-- Advancing behind what a parser left of the window makes that the window.
pub advance_with_slice_lem :
    (rb : ReadBuffer) (front rem : List ℕ)
    → IsValid rb
    → front ++ rem ≡ window rb
    → (rb' : ReadBuffer) × (advance_with_slice rb rem ≡ ok rb')
      × IsValid rb'
      × (window rb' ≡ rem)
      × (rb'.reader ≡ rb.reader)
      × (length rb'.buffer ≡ length rb.buffer)
unfolding advance_with_slice
advance_with_slice_lem rb front rem v e =
    let lw = length-window rb v in
    let lf : length (window rb) - length rem ≡ length front =
      omega (arith, ap length e, length-append front rem) in
    let fits : length front ≤ rb.len - rb.pos =
      omega (arith, ap length e, length-append front rem) in
    (
      record rb { pos = rb.pos + length front },
      rw (lf, le→leb (rb.pos + length front) rb.len (omega arith)),
      record { pos-le-len = omega arith; len-le-capacity = v.len-le-capacity },
      rw (drop_add (rb.pos + length front) rb.pos (length front) rb.buffer refl) (
          sym (
            drop-take (length front) (rb.len - rb.pos) (rb.len - (rb.pos + length front))
              (drop rb.pos rb.buffer) (omega arith))
          ∙ ap (drop (length front)) (sym e)
          ∙ drop-append (length front) front rem refl),
      refl,
      refl,
    )

-- Where the reader fails while fewer bytes have been consumed than are left in the buffer, `fill_buf`
-- leaves a window that has lost as many bytes at its front as were consumed, with the same number of
-- other bytes of the buffer behind: the data have been moved, and `pos` and `len` have not.
pub fill_buf_fault :
    (rb : ReadBuffer) (es : Source)
    → IsValid rb
    → rb.reader ≡ fault ∷ es
    → rb.pos < rb.len - rb.pos
    → ((fill_buf rb).0 ≡ none)
      × (window (fill_buf rb).1
          ≡ drop rb.pos (window rb) ++ take rb.pos (drop (rb.len - rb.pos) rb.buffer))
unfolding fill_buf
fill_buf_fault rb es v e lt = rw e (refl, moved)
  where
    moved :
        take (rb.len - rb.pos) (drop rb.pos (window rb ++ drop (rb.len - rb.pos) rb.buffer))
        ≡ drop rb.pos (window rb) ++ take rb.pos (drop (rb.len - rb.pos) rb.buffer)
    moved =
        ap (take (rb.len - rb.pos))
          (drop-append_le rb.pos (window rb) _ (omega (arith, length-window rb v)))
        ∙ take-append_add (rb.len - rb.pos) rb.pos (drop rb.pos (window rb)) _
            (omega (arith, length-drop rb.pos (window rb), length-window rb v))
