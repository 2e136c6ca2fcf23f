-- ===== src/Ingestion/Normalizer.antt =====
-- backend/app/services/ingestion/normalizer.py: one raw record onto the columns of a log entry.
-- Every value that a parser yields is one that `_jsonable` leaves as it is.
pub mod Values
pub mod Keys
pub mod Parsing
pub mod Fields
pub mod Rows
pub mod Bounds
use soc_analyst.Prelude.{
  Outcome, ok, raised, ℕ, String, ◌≡◌, Bool, true, false, ◌||◌, Option, none, some, List, [], ◌∷◌,
  ◌++◌, take, if◌then◌else◌, is_some, or_default,
}
use soc_analyst.Enums.{Severity, info}
use soc_analyst.Pystr.{Pystr, codes, strip, is_empty}
use soc_analyst.Pystr.Search.{starts_with}
use soc_analyst.Ingestion.Normalizer.Values.{
  Value, null, boolean, integer, real, text, array, dictionary, Dict, empty, entry, get, set,
  set_default, update, is_null, is_blank,
}
use soc_analyst.Ingestion.Normalizer.Keys.{lookup, is_metadata, canonical_key}
use soc_analyst.Ingestion.Normalizer.Parsing.{
  Library, Crash, lone_surrogate, has_surrogate, timestamp_crash, severity_crash, parse_timestamp,
  parse_ip, parse_port, parse_severity, clean_text,
}

pub record FieldValue : Type 0 where
  pub key : Pystr
  pub value : Value

-- `RawRecord`
pub record Raw : Type 0 where
  pub line : ℕ
  pub fields : List FieldValue
  pub raw : Pystr

pub record Rejection : Type 0 where
  pub line : ℕ
  pub reason : Pystr
  pub field : Option String

-- the columns of a log entry
pub record Columns (T : Type 0) : Type 0 where
  pub event_timestamp : T
  pub severity : Severity
  pub event_type : Option Pystr
  pub action : Option Pystr
  pub outcome : Option Pystr
  pub category : Option Pystr
  pub host : Option Pystr
  pub process : Option Pystr
  pub username : Option Pystr
  pub protocol : Option Pystr
  pub source_port : Option ℕ
  pub destination_port : Option ℕ
  pub source_ip : Option Pystr
  pub destination_ip : Option Pystr
  pub message : Pystr
  pub raw : Pystr
  pub attributes : Dict
  pub fingerprint : Pystr

-- `mapped` and `attributes`
pub record Scan : Type 0 where
  pub mapped : Dict
  pub attributes : Dict

-- `{key: value}`
abbrev pub single : Pystr → Value → Dict
single key value = entry key value empty

-- the decoded text, if it is a dictionary
abbrev pub decoded_or : Dict → Option Value → Dict
decoded_or otherwise (some (dictionary d)) = d
decoded_or otherwise _ = otherwise

-- a field whose name maps to a column, or to none
unfoldable pub place : Pystr → Value → Option Pystr → Scan → Scan
place canonical value none s = record s { attributes = set_default canonical value s.attributes }
place canonical value (some target) s =
    if is_some (get target s.mapped)
    then record s { attributes = set_default canonical value s.attributes }
    else record s { mapped = set target value s.mapped }

abbrev pub nothing_read : Scan
nothing_read = record { mapped = empty; attributes = empty }

-- `mapped.get(name)`
abbrev pub mapped_to : String → Scan → Option Value
mapped_to name s = get (codes name) s.mapped

module _ {F T : Type 0} (lib : Library F T) where
  unfoldable pub as_attributes : Pystr → Value → Dict
  as_attributes key (dictionary d) = d
  as_attributes key (text t) =
      if starts_with (codes "{") (strip t)
      then decoded_or (single key (text t)) (lib.loads (strip t))
      else single key (text t)
  as_attributes key v = single key v

  -- one round of the loop over the fields
  unfoldable pub absorb : Pystr → Value → Scan → Scan
  unfolding as_attributes place
  absorb canonical value s =
      if is_empty canonical
      then s
      else if is_metadata canonical
      then record s { attributes = update s.attributes (as_attributes canonical value) }
      else place canonical value (lookup canonical) s

  unfoldable pub scan : List FieldValue → Scan → Scan
  unfolding absorb
  scan [] s = s
  scan (f ∷ fs) s = scan fs (absorb (canonical_key lib.lower f.key) f.value s)

  -- the error for a timestamp that is missing or cannot be read
  unfoldable pub timestamp_reason : Option Value → Pystr
  timestamp_reason none = codes "no timestamp field found"
  timestamp_reason (some null) = codes "no timestamp field found"
  timestamp_reason (some (text t)) =
      if is_empty (strip t)
      then codes "timestamp is empty"
      else codes "unparseable timestamp " ++ lib.repr (text t)
  timestamp_reason (some v) = codes "unparseable timestamp " ++ lib.repr v

  -- `attributes.setdefault(column, original)` for an address that is none
  unfoldable pub keep_original : Pystr → Option Value → Dict → Dict
  keep_original column none d = d
  keep_original column (some v) d =
      if is_some (parse_ip lib (some v)) || is_blank v then d else set_default column v d

  -- a severity that is present and not recognised
  unfoldable pub keep_severity : Option Value → Dict → Dict
  keep_severity none d = d
  keep_severity (some v) d =
      if is_null v || is_some (parse_severity lib (some v))
      then d
      else set_default (codes "severity") v d

  unfoldable pub final_attributes : Scan → Dict
  unfolding keep_original keep_severity
  final_attributes s = keep_severity (mapped_to "severity" s) (
      keep_original (codes "destination_ip") (mapped_to "destination_ip" s)
        (keep_original (codes "source_ip") (mapped_to "source_ip" s) s.attributes))

  -- `"|".join(parts)` of `_fingerprint`
  unfoldable pub identity : T → Option Pystr → Option Pystr → Option Pystr → Pystr → Pystr
  identity time source destination event_type message =
      lib.isoformat time
      ++ (codes "|"
          ++ (or_default source []
              ++ (codes "|"
                  ++ (or_default destination []
                      ++ (codes "|" ++ (or_default event_type [] ++ (codes "|" ++ message)))))))

  -- `_fingerprint`, where the text can be encoded
  unfoldable pub fingerprint : T → Option Pystr → Option Pystr → Option Pystr → Pystr → Pystr
  unfolding identity
  fingerprint time source destination event_type message =
      lib.sha256 (identity time source destination event_type message)

  unfoldable pub columns_of : Raw → Scan → T → Columns T
  unfolding final_attributes fingerprint
  columns_of record_ s time =
      let message =
        or_default (clean_text lib (mapped_to "message" s) 8192) (take 8192 record_.raw) in
      let source = parse_ip lib (mapped_to "source_ip" s) in
      let destination = parse_ip lib (mapped_to "destination_ip" s) in
      let event_type = clean_text lib (mapped_to "event_type" s) 128 in
      record {
        event_timestamp = time;
        severity = or_default (parse_severity lib (mapped_to "severity" s)) info;
        event_type = event_type;
        action = clean_text lib (mapped_to "action" s) 128;
        outcome = clean_text lib (mapped_to "outcome" s) 32;
        category = clean_text lib (mapped_to "category" s) 64;
        host = clean_text lib (mapped_to "host" s) 255;
        process = clean_text lib (mapped_to "process" s) 255;
        username = clean_text lib (mapped_to "username" s) 255;
        protocol = clean_text lib (mapped_to "protocol" s) 16;
        source_port = parse_port lib (mapped_to "source_port" s);
        destination_port = parse_port lib (mapped_to "destination_port" s);
        source_ip = source;
        destination_ip = destination;
        message = message;
        raw = record_.raw;
        attributes = final_attributes s;
        fingerprint = fingerprint time source destination event_type message;
      }

  -- the row, or the exception of `encode` in `_fingerprint`
  unfoldable pub encoded : Columns T → Outcome Crash (Option (Columns T) × Option Rejection)
  unfolding identity has_surrogate
  encoded c =
      if has_surrogate
        (identity c.event_timestamp c.source_ip c.destination_ip c.event_type c.message)
      then raised lone_surrogate
      else ok (some c, none)

  -- the result for the time that was read, or the error; the severity and the fingerprint may raise
  unfoldable pub finish_record :
      Raw → Scan → Option T → Outcome Crash (Option (Columns T) × Option Rejection)
  unfolding columns_of timestamp_reason severity_crash encoded
  finish_record r s (some time) = elim (severity_crash lib (mapped_to "severity" s)) [
    | some crash ↦ raised crash
    | none ↦ encoded (columns_of r s time)
  ]
  finish_record r s none = ok (
    none,
    some (record {
      line = r.line;
      reason = timestamp_reason (mapped_to "event_timestamp" s);
      field = some "timestamp";
    }),
  )

  unfoldable pub normalize : Raw → Outcome Crash (Option (Columns T) × Option Rejection)
  unfolding scan finish_record timestamp_crash
  normalize r =
      let s = scan r.fields nothing_read in
      if is_empty r.fields
      then ok
          (none, some (record { line = r.line; reason = codes "record is empty"; field = none }))
      else elim (timestamp_crash lib (mapped_to "event_timestamp" s)) [
        | some crash ↦ raised crash
        | none ↦ finish_record r s (parse_timestamp lib (mapped_to "event_timestamp" s))
      ]
