-- ===== src/ReadBuffer.antt =====
-- `ReadBuffer` of src/read_buffer.rs: a buffer over a reader, from which elements are parsed.
pub mod Fill
pub mod Parse
pub mod Next
pub mod Stateless
pub mod Drain
pub mod Steady
pub mod Failures
pub mod Opening
use pcap_file.Common.{
  ℕ, zero, suc, ◌+◌, ◌-◌, ◌≤◌, ◌≡◌, List, [], ◌∷◌, ◌++◌, length, take, drop, replicate, All, Option,
  none, some, Bool, true, false, Result, ok, err, panic, PcapError, incomplete_buffer, io_error,
  unexpected_eof, other, leb, ◌==◌, if◌then◌else◌,
}

-- An arbitrary `R: Read` is known by what its calls of `read` answer: some bytes, of which a call
-- takes as many as it has room for, or an error. At the end it answers with no bytes.
pub data Event : Type 0 where
  chunk : List ℕ → Event
  fault : Event

abbrev pub Source : Type 0
Source = List Event

-- `reader.read(&mut buf)` with room for `room` bytes: `none` is an error.
unfoldable pub read : ℕ → Source → Option (List ℕ) × Source
read room [] = (some [], [])
read room (fault ∷ es) = (none, es)
read room (chunk c ∷ es) =
    if leb (length c) room then (some c, es) else (some (take room c), chunk (drop room c) ∷ es)

pub record ReadBuffer : Type 0 where
  pub reader : Source
  pub buffer : List ℕ
  pub pos : ℕ
  pub len : ℕ

-- The bounds under which `buffer[pos..len]` is a slice.
pub record IsValid (rb : ReadBuffer) : Type 0 where
  pub pos-le-len : rb.pos ≤ rb.len
  pub len-le-capacity : rb.len ≤ length rb.buffer

-- `ReadBuffer::with_capacity`
unfoldable pub with_capacity : Source → ℕ → ReadBuffer
with_capacity reader capacity = record {
  reader = reader;
  buffer = replicate capacity 0;
  pos = 0;
  len = 0;
}

-- `ReadBuffer::new`
unfoldable pub new : Source → ReadBuffer
unfolding with_capacity
new reader = with_capacity reader 8_000_000

-- `buffer()`: the bytes `buffer[pos..len]`.
abbrev pub window : ReadBuffer → List ℕ
window rb = take (rb.len - rb.pos) (drop rb.pos rb.buffer)

-- What `fill_buf` leaves, by the answer of the reader. The data that remain have been moved to the
-- front of the buffer already; after an error `pos` and `len` are as they were. A read that fails is
-- taken to leave the rest of the buffer alone.
unfoldable pub refilled : ReadBuffer → Option (List ℕ) × Source → Option ℕ × ReadBuffer
refilled rb (none, reader) =
    (none, record rb { reader = reader; buffer = window rb ++ drop (rb.len - rb.pos) rb.buffer })
refilled rb (some bytes, reader) = (
  some (length bytes),
  record {
    reader = reader;
    buffer = window rb ++ (bytes ++ drop (length bytes) (drop (rb.len - rb.pos) rb.buffer));
    pos = 0;
    len = rb.len - rb.pos + length bytes;
  },
)

-- `fill_buf`: the number of bytes read, or `none` for an error of the reader.
unfoldable pub fill_buf : ReadBuffer → Option ℕ × ReadBuffer
unfolding refilled read
fill_buf rb = refilled rb (read (length rb.buffer - (rb.len - rb.pos)) rb.reader)

-- `advance`, with its assertion.
unfoldable pub advance : ReadBuffer → ℕ → Result ReadBuffer
advance rb nb_bytes =
    if leb (rb.pos + nb_bytes) rb.len then ok (record rb { pos = rb.pos + nb_bytes }) else panic

-- `advance_with_slice`. `rem` is what a parser left of the window, its end, so the distance between
-- the two pointers is the difference of the lengths.
unfoldable pub advance_with_slice : ReadBuffer → List ℕ → Result ReadBuffer
unfolding advance
advance_with_slice rb rem = advance rb (length (window rb) - length rem)

-- `has_data_left` behind a call of `fill_buf`.
abbrev pub any_read : Option ℕ × ReadBuffer → Option Bool × ReadBuffer
any_read (none, rb) = (none, rb)
any_read (some zero, rb) = (some false, rb)
any_read (some (suc _), rb) = (some true, rb)

-- `has_data_left`: `none` is an error of the reader.
unfoldable pub has_data_left : ReadBuffer → Option Bool × ReadBuffer
unfolding fill_buf
has_data_left rb =
    let answer = any_read (fill_buf rb) in
    if length (window rb) == 0 then answer else (some true, rb)

-- A parser as a closure with a state of its own (`FnMut`).
abbrev pub Closure : Type 0 → Type 0 → Type 0
Closure S O = S → List ℕ → Result (List ℕ × O) × S

-- What a run of `parse_with` answers, with the states it leaves. `none` is no answer of the
-- program: the fuel ran out.
abbrev pub Run : Type 0 → Type 0 → Type 0
Run S O = Option (Result O × S × ReadBuffer)

module _ {S O : Type 0} where
  -- The branch for a parsed value.
  unfoldable pub on_value : O → S → ReadBuffer → Result ReadBuffer → Run S O
  on_value value s rb (ok rb') = some (ok value, s, rb')
  on_value value s rb (err e) = some (err e, s, rb)
  on_value value s rb panic = some (panic, s, rb)

  -- The end of the branch for `IncompleteBuffer`, by what `fill_buf` answered.
  unfoldable pub on_fill : (S → ReadBuffer → Run S O) → S → Option ℕ × ReadBuffer → Run S O
  on_fill again s (none, rb) = some (err (io_error other), s, rb)
  on_fill again s (some zero, rb) = some (err (io_error unexpected_eof), s, rb)
  on_fill again s (some (suc _), rb) = again s rb

  -- The body of the loop, by the answer of the parser. `again` is the next round.
  unfoldable pub on_answer :
      (S → ReadBuffer → Run S O) → ReadBuffer → Result (List ℕ × O) × S → Run S O
  unfolding on_value on_fill
  on_answer again rb (ok (rem, value), s) = on_value value s rb (advance_with_slice rb rem)
  on_answer again rb (err incomplete_buffer, s) =
      let more = on_fill again s (fill_buf rb) in
      if length (window rb) == length rb.buffer
      then some (err (io_error unexpected_eof), s, rb)
      else more
  on_answer again rb (err e, s) = some (err e, s, rb)
  on_answer again rb (panic, s) = some (panic, s, rb)

  -- `parse_with`, with fuel for the rounds of its loop.
  unfoldable pub parse_with : ℕ → Closure S O → S → ReadBuffer → Run S O
  unfolding on_answer
  parse_with zero parser s rb = none
  parse_with (suc fuel) parser s rb = on_answer (parse_with fuel parser) rb (parser s (window rb))

-- An answer of a reader's `next_*` method, with the states it leaves: `none` inside at the end of
-- the input; `none` outside if the fuel ran out.
abbrev pub NextRun : Type 0 → Type 0 → Type 0
NextRun S O = Option (Option (Result O) × S × ReadBuffer)

module _ {S O : Type 0} where
  -- The branch for data left, by what `parse_with` answers.
  unfoldable pub parsed : Run S O → NextRun S O
  parsed none = none
  parsed (some (r, s, rb)) = some (some r, s, rb)

  unfoldable pub on_data_left : (ReadBuffer → Run S O) → S → Option Bool × ReadBuffer → NextRun S O
  unfolding parsed
  on_data_left parse s (some true, rb) = parsed (parse rb)
  on_data_left parse s (some false, rb) = some (none, s, rb)
  on_data_left parse s (none, rb) = some (some (err (io_error other)), s, rb)

  -- The body that the `next_*` methods of the two readers share. A round takes a byte at least, so
  -- one more round than the buffer has bytes is enough.
  unfoldable pub next_with : Closure S O → S → ReadBuffer → NextRun S O
  unfolding on_data_left parse_with has_data_left
  next_with parser s rb =
      on_data_left (λ rb'. parse_with (suc (length rb'.buffer)) parser s rb') s (has_data_left rb)
