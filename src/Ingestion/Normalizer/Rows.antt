-- ===== src/Ingestion/Normalizer/Rows.antt =====
-- What the columns and the attributes of a row hold of the record's fields.
use soc_analyst.Prelude.{
  ok, Option-cases, ◌≡◌, refl, sym, ap, ◌∙◌, subst, ◌⊎◌, inl, inr, true, Option, none, some, List,
  arith, All, All-mono, is_some, Bool-cases, or_default, take,
}
use soc_analyst.Enums.{info}
use soc_analyst.Pystr.{Pystr, codes, is_empty}
use soc_analyst.Ingestion.Normalizer.Values.{Value, Dict, get, is_some-get-set_default}
use soc_analyst.Ingestion.Normalizer.Keys.{lookup, is_metadata, canonical_key}
use soc_analyst.Ingestion.Normalizer.Parsing.{
  Library, parse_timestamp, timestamp_crash, severity_crash, parse_ip, parse_port, parse_severity,
  clean_text,
}
use soc_analyst.Ingestion.Normalizer.{
  FieldValue, Raw, Columns, Scan, scan, keep_original, keep_severity, final_attributes, identity,
  fingerprint, encoded, columns_of, finish_record, normalize, mapped_to, nothing_read,
}
use soc_analyst.Ingestion.Normalizer.Fields.{first_value, get-scan, Placed, scan-Placed}

module _ {F T : Type 0} (lib : Library F T) where
  kept_original :
      (k column : Pystr) (v : Option Value) (d : Dict)
      → is_some (get k d) ≡ true
      → is_some (get k (keep_original lib column v d)) ≡ true
  unfolding keep_original
  kept_original k column none d h = h
  kept_original k column (some v) d h = ground (arith, is_some-get-set_default k column v d h)

  kept_severity :
      (k : Pystr) (v : Option Value) (d : Dict)
      → is_some (get k d) ≡ true
      → is_some (get k (keep_severity lib v d)) ≡ true
  unfolding keep_severity
  kept_severity k none d h = h
  kept_severity k (some v) d h = ground (arith, is_some-get-set_default k (codes "severity") v d h)

  -- The attributes of the row hold every key that the loop left.
  attribute-final :
      (k : Pystr) (s : Scan)
      → is_some (get k s.attributes) ≡ true
      → is_some (get k (final_attributes lib s)) ≡ true
  unfolding final_attributes
  attribute-final k s h = kept_severity k (mapped_to "severity" s) _ (
      kept_original k (codes "destination_ip") (mapped_to "destination_ip" s) _
        (kept_original k (codes "source_ip") (mapped_to "source_ip" s) s.attributes h))

  -- A field that names a column but is not the first to do so, or names no column, is an attribute.
  abbrev Accounted : List FieldValue → FieldValue → Dict → Type 0
  Accounted fields f attributes =
      (is_empty (canonical_key lib.lower f.key) ≡ true)
      ⊎ ((is_metadata (canonical_key lib.lower f.key) ≡ true)
          ⊎ ((is_some (get (canonical_key lib.lower f.key) attributes) ≡ true)
              ⊎ ((t : Pystr) × (lookup (canonical_key lib.lower f.key) ≡ some t)
                  × (first_value lib t fields ≡ some f.value))))

  Placed-Accounted :
      (fields : List FieldValue) (f : FieldValue)
      → Placed lib f (scan lib fields nothing_read).attributes (scan lib fields nothing_read).mapped
      → Accounted fields f (final_attributes lib (scan lib fields nothing_read))
  unfolding get
  Placed-Accounted fields f (inl e) = inl e
  Placed-Accounted fields f (inr (inl e)) = inr (inl e)
  Placed-Accounted fields f (inr (inr (inl e))) = inr (inr (inl (attribute-final _ _ e)))
  Placed-Accounted fields f (inr (inr (inr (t, e, h)))) =
      inr (inr (inr (t, e, sym (get-scan lib t fields nothing_read) ∙ h)))

  encoded-columns : (d c : Columns T) → encoded lib d ≡ ok (some c, none) → c ≡ d
  unfolding encoded
  encoded-columns d c h = ground arith

  finish_record-columns :
      (r : Raw) (s : Scan) (time : Option T) (c : Columns T)
      → finish_record lib r s time ≡ ok (some c, none)
      → (time' : T) × (time ≡ some time') × (c ≡ columns_of lib r s time')
  unfolding finish_record
  finish_record-columns r s none c h = absurd (ground arith)
  finish_record-columns r s (some time) c h =
      elim (Option-cases (severity_crash lib (mapped_to "severity" s))) [
        | inl e ↦
            (time, refl, encoded-columns (columns_of lib r s time) c (rw (e, finish_record) at h))
        | inr (crash, e) ↦ absurd (ground (arith, rw (e, finish_record) at h))
      ]

  normalize-columns :
      (r : Raw) (c : Columns T)
      → normalize lib r ≡ ok (some c, none)
      → (time : T) × (parse_timestamp lib
            (mapped_to "event_timestamp" (scan lib r.fields nothing_read))
          ≡ some time)
        × (c ≡ columns_of lib r (scan lib r.fields nothing_read) time)
  unfolding normalize
  normalize-columns r c h =
      let s = scan lib r.fields nothing_read in
      elim (Bool-cases (is_empty r.fields)) [
        | inl e ↦ absurd (ground (arith, rw (e, normalize) at h))
        | inr e ↦ elim (Option-cases (timestamp_crash lib (mapped_to "event_timestamp" s))) [
          | inr (crash, q) ↦ absurd (ground (arith, rw (e, q, normalize) at h))
          | inl q ↦ finish_record-columns r s _ c (rw (e, q, normalize) at h)
        ]
      ]

  -- The fields of a record that gives a row: unless its name has no letter or digit, or is a name for
  -- metadata, a field's canonical name is a key of the row's attributes, or it is the first field
  -- whose name stands for its column. The value under the key may be another field's.
  normalize-Accounted :
      (r : Raw) (c : Columns T)
      → normalize lib r ≡ ok (some c, none)
      → All (λ f. Accounted r.fields f c.attributes) r.fields
  unfolding columns_of
  normalize-Accounted r c h =
      let (time, read, e) = normalize-columns r c h in
      subst (λ d. All (λ f. Accounted r.fields f d.attributes) r.fields) (sym e)
        (All-mono (λ f. Placed-Accounted r.fields f) r.fields
          (scan-Placed lib r.fields nothing_read))

  -- the first value for a column, whatever the fields after it say
  abbrev pub first_of : Raw → Pystr → Option Value
  first_of r column = first_value lib column r.fields

  pub record FromFields (r : Raw) (c : Columns T) : Type 0 where
    pub event_timestamp :
        parse_timestamp lib (first_of r (codes "event_timestamp")) ≡ some c.event_timestamp
    pub severity : c.severity ≡ or_default (parse_severity lib (first_of r (codes "severity"))) info
    pub event_type : c.event_type ≡ clean_text lib (first_of r (codes "event_type")) 128
    pub action : c.action ≡ clean_text lib (first_of r (codes "action")) 128
    pub outcome : c.outcome ≡ clean_text lib (first_of r (codes "outcome")) 32
    pub category : c.category ≡ clean_text lib (first_of r (codes "category")) 64
    pub host : c.host ≡ clean_text lib (first_of r (codes "host")) 255
    pub process : c.process ≡ clean_text lib (first_of r (codes "process")) 255
    pub username : c.username ≡ clean_text lib (first_of r (codes "username")) 255
    pub protocol : c.protocol ≡ clean_text lib (first_of r (codes "protocol")) 16
    pub source_port : c.source_port ≡ parse_port lib (first_of r (codes "source_port"))
    pub destination_port :
        c.destination_port ≡ parse_port lib (first_of r (codes "destination_port"))
    pub source_ip : c.source_ip ≡ parse_ip lib (first_of r (codes "source_ip"))
    pub destination_ip : c.destination_ip ≡ parse_ip lib (first_of r (codes "destination_ip"))
    pub message :
        c.message
        ≡ or_default (clean_text lib (first_of r (codes "message")) 8192) (take 8192 r.raw)
    pub raw : c.raw ≡ r.raw
    pub fingerprint :
        c.fingerprint
        ≡ lib.sha256
            (identity lib c.event_timestamp c.source_ip c.destination_ip c.event_type c.message)

  first_mapped :
      (r : Raw) (column : Pystr)
      → get column (scan lib r.fields nothing_read).mapped ≡ first_of r column
  unfolding get
  first_mapped r column = get-scan lib column r.fields nothing_read

  columns_of-FromFields :
      (r : Raw) (time : T)
      → parse_timestamp lib (mapped_to "event_timestamp" (scan lib r.fields nothing_read))
        ≡ some time
      → FromFields r (columns_of lib r (scan lib r.fields nothing_read) time)
  unfolding columns_of fingerprint
  columns_of-FromFields r time read = record {
    event_timestamp =
        ap (parse_timestamp lib) (sym (first_mapped r (codes "event_timestamp"))) ∙ read;
    raw = refl;
    fingerprint = refl;
    severity = ap (λ v. or_default (parse_severity lib v) info) (first_mapped r (codes "severity"));
    event_type = ap (λ v. clean_text lib v 128) (first_mapped r (codes "event_type"));
    action = ap (λ v. clean_text lib v 128) (first_mapped r (codes "action"));
    outcome = ap (λ v. clean_text lib v 32) (first_mapped r (codes "outcome"));
    category = ap (λ v. clean_text lib v 64) (first_mapped r (codes "category"));
    host = ap (λ v. clean_text lib v 255) (first_mapped r (codes "host"));
    process = ap (λ v. clean_text lib v 255) (first_mapped r (codes "process"));
    username = ap (λ v. clean_text lib v 255) (first_mapped r (codes "username"));
    protocol = ap (λ v. clean_text lib v 16) (first_mapped r (codes "protocol"));
    source_port = ap (parse_port lib) (first_mapped r (codes "source_port"));
    destination_port = ap (parse_port lib) (first_mapped r (codes "destination_port"));
    source_ip = ap (parse_ip lib) (first_mapped r (codes "source_ip"));
    destination_ip = ap (parse_ip lib) (first_mapped r (codes "destination_ip"));
    message =
        ap (λ v. or_default (clean_text lib v 8192) (take 8192 r.raw))
          (first_mapped r (codes "message"));
  }

  -- The time, the severity, the addresses, the ports and the texts of the row are each read from the
  -- first field whose name stands for that column, whatever spelling of it the fields after that one
  -- use; a row without a message has the beginning of the raw record; the raw record is kept; and the
  -- fingerprint is of the time, the addresses, the type and the message of the row.
  pub normalize-FromFields :
      (r : Raw) (c : Columns T) → normalize lib r ≡ ok (some c, none) → FromFields r c
  normalize-FromFields r c h =
      let (time, read, e) = normalize-columns r c h in
      subst (FromFields r) (sym e) (columns_of-FromFields r time read)
