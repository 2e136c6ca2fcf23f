-- ===== src/Ingestion/Normalizer/Bounds.antt =====
-- What the columns of a normalised record respect: the widths of the table's columns, the range of
-- a port, and that a record gives a row or an error.
use soc_analyst.Prelude.{
  true, Outcome, ok, raised, Option-cases, ℕ, ◌≤◌, ◌⊎◌, ◌≡◌, refl, Option, none, some, arith,
  length, length-take, take, leb, leb→le, or_default, Bool-cases, inl, inr,
}
use soc_analyst.Pystr.{Pystr, is_empty, strip}
use soc_analyst.Ingestion.Normalizer.Values.{Integer, pos, negsuc, Value, null, is_null, is_boolean}
use soc_analyst.Ingestion.Normalizer.Parsing.{
  Library, Crash, lone_surrogate, has_surrogate, timestamp_crash, severity_crash, parse_timestamp,
  parse_port, port_of, clean_text, text_of, trimmed,
}
use soc_analyst.Ingestion.Normalizer.{
  Raw, Rejection, Columns, Scan, identity, encoded, columns_of, finish_record, normalize, mapped_to,
  nothing_read, scan,
}

-- A text that is there is not longer than the column.
abbrev pub Fits : ℕ → Option Pystr → Type 0
Fits limit none = Unit
Fits limit (some t) = length t ≤ limit

abbrev pub InRange : Option ℕ → Type 0
InRange none = Unit
InRange (some n) = n ≤ 65535

port_of-InRange : (n : Option Integer) → InRange (port_of n)
unfolding port_of
port_of-InRange none = tt
port_of-InRange (some (negsuc n)) = tt
port_of-InRange (some (pos n)) = elim (Bool-cases (leb n 65535)) [
  | inl e ↦ rw e (leb→le n 65535 e)
  | inr e ↦ rw e tt
]

trimmed-Fits :
    {F T : Type 0} (lib : Library F T) (limit : ℕ) (t : Pystr) → Fits limit (trimmed lib limit t)
unfolding trimmed
trimmed-Fits lib limit t = elim (Bool-cases (is_empty t)) [
  | inl e ↦ rw e tt
  | inr e ↦ rw e (omega (arith, length-take limit t))
]

module _ {F T : Type 0} (lib : Library F T) where
  parse_port-InRange : (v : Option Value) → InRange (parse_port lib v)
  unfolding parse_port
  parse_port-InRange none = port_of-InRange (lib.to_int (strip (text_of lib null)))
  parse_port-InRange (some v) = elim (Bool-cases (is_boolean v)) [
    | inl e ↦ rw e tt
    | inr e ↦ rw e (port_of-InRange (lib.to_int (strip (text_of lib v))))
  ]

  clean_text-Fits : (v : Option Value) (limit : ℕ) → Fits limit (clean_text lib v limit)
  unfolding clean_text
  clean_text-Fits none limit = tt
  clean_text-Fits (some v) limit = elim (Bool-cases (is_null v)) [
    | inl e ↦ rw e tt
    | inr e ↦ rw e (trimmed-Fits lib limit (strip (text_of lib v)))
  ]

  default-Fits :
      (limit : ℕ) (t : Option Pystr) (raw : Pystr)
      → Fits limit t
      → length (or_default t (take limit raw)) ≤ limit
  default-Fits limit none raw h = omega (arith, length-take limit raw)
  default-Fits limit (some t) raw h = h

  -- the widths that the columns of the table have
  pub record IsStorable (c : Columns T) : Type 0 where
    pub event_type : Fits 128 c.event_type
    pub action : Fits 128 c.action
    pub outcome : Fits 32 c.outcome
    pub category : Fits 64 c.category
    pub host : Fits 255 c.host
    pub process : Fits 255 c.process
    pub username : Fits 255 c.username
    pub protocol : Fits 16 c.protocol
    pub message : length c.message ≤ 8192
    pub source_port : InRange c.source_port
    pub destination_port : InRange c.destination_port

  columns_of-IsStorable : (r : Raw) (s : Scan) (time : T) → IsStorable (columns_of lib r s time)
  unfolding columns_of
  columns_of-IsStorable r s time = record {
    event_type = clean_text-Fits (mapped_to "event_type" s) 128;
    action = clean_text-Fits (mapped_to "action" s) 128;
    outcome = clean_text-Fits (mapped_to "outcome" s) 32;
    category = clean_text-Fits (mapped_to "category" s) 64;
    host = clean_text-Fits (mapped_to "host" s) 255;
    process = clean_text-Fits (mapped_to "process" s) 255;
    username = clean_text-Fits (mapped_to "username" s) 255;
    protocol = clean_text-Fits (mapped_to "protocol" s) 16;
    message = default-Fits 8192 _ r.raw (clean_text-Fits (mapped_to "message" s) 8192);
    source_port = parse_port-InRange (mapped_to "source_port" s);
    destination_port = parse_port-InRange (mapped_to "destination_port" s);
  }

  -- what may raise
  pub data CrashOf (r : Raw) (crash : Crash) : Type 0 where
    of_timestamp :
        timestamp_crash lib (mapped_to "event_timestamp" (scan lib r.fields nothing_read))
          ≡ some crash
        → CrashOf r crash
    of_encoding :
        (time : T)
        → parse_timestamp lib (mapped_to "event_timestamp" (scan lib r.fields nothing_read))
          ≡ some time
        → (let c = columns_of lib r (scan lib r.fields nothing_read) time in
            has_surrogate
              (identity lib c.event_timestamp c.source_ip c.destination_ip c.event_type c.message)
            ≡ true)
        → crash ≡ lone_surrogate
        → CrashOf r crash
    of_severity :
        severity_crash lib (mapped_to "severity" (scan lib r.fields nothing_read)) ≡ some crash
        → CrashOf r crash

  -- a row within the widths of the table and no error, or no row and an error for the record's line,
  -- or the exception of the timestamp, of the severity or of the fingerprint
  abbrev pub RowOrError : Raw → Outcome Crash (Option (Columns T) × Option Rejection) → Type 0
  RowOrError r result =
      ((c : Columns T) × (result ≡ ok (some c, none)) × IsStorable c)
      ⊎ (((e : Rejection) × (result ≡ ok (none, some e)) × (e.line ≡ r.line))
          ⊎ ((crash : Crash) × (result ≡ raised crash) × CrashOf r crash))

  encoded-RowOrError :
      (r : Raw) (time : T)
      → parse_timestamp lib (mapped_to "event_timestamp" (scan lib r.fields nothing_read))
        ≡ some time
      → RowOrError r (encoded lib (columns_of lib r (scan lib r.fields nothing_read) time))
  unfolding encoded
  encoded-RowOrError r time read =
      let c = columns_of lib r (scan lib r.fields nothing_read) time in
      elim (Bool-cases (
        has_surrogate
          (identity lib c.event_timestamp c.source_ip c.destination_ip c.event_type c.message))) [
            | inl e ↦ rw e (inr (inr (lone_surrogate, refl, of_encoding time read e refl)))
            | inr e ↦ rw e (inl (c, refl, columns_of-IsStorable r _ time))
          ]

  finish_record-RowOrError :
      (r : Raw) (time : Option T)
      → parse_timestamp lib (mapped_to "event_timestamp" (scan lib r.fields nothing_read)) ≡ time
      → RowOrError r (finish_record lib r (scan lib r.fields nothing_read) time)
  unfolding finish_record
  finish_record-RowOrError r none read = inr (inl (_, refl, refl))
  finish_record-RowOrError r (some time) read =
      let s = scan lib r.fields nothing_read in
      elim (Option-cases (severity_crash lib (mapped_to "severity" s))) [
        | inl e ↦ rw (e, finish_record) (encoded-RowOrError r time read)
        | inr (crash, e) ↦ rw (e, finish_record) (inr (inr (crash, refl, of_severity e)))
      ]

  -- Every record gives either a row, whose texts are not longer than the columns of the table and
  -- whose ports are at most 65535, or one error that names the record's line, and never both; the
  -- one exception is raised where the timestamp is an integer too large for a float, the severity is
  -- a text of digits that `int` does not read, or the text of the fingerprint has a lone surrogate.
  pub normalize-RowOrError : (r : Raw) → RowOrError r (normalize lib r)
  unfolding normalize
  normalize-RowOrError r =
      let s = scan lib r.fields nothing_read in
      elim (Bool-cases (is_empty r.fields)) [
        | inl e ↦ rw (e, normalize) (inr (inl (_, refl, refl)))
        | inr e ↦ elim (Option-cases (timestamp_crash lib (mapped_to "event_timestamp" s))) [
          | inr (crash, q) ↦ rw (e, q, normalize) (inr (inr (crash, refl, of_timestamp q)))
          | inl q ↦
              rw (e, q, normalize)
                (finish_record-RowOrError r (parse_timestamp lib (mapped_to "event_timestamp" s))
                  refl)
        ]
      ]
