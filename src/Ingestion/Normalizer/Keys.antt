-- ===== src/Ingestion/Normalizer/Keys.antt =====
-- Field names: `ALIASES` with the lookup that inverts it, `METADATA_KEYS` and `canonical_key`.
-- `lower` is `str.lower`.
use soc_analyst.Prelude.{
  ℕ, String, Bool, true, false, ◌&&◌, ◌||◌, Option, none, some, List, [], ◌∷◌, leb, ◌==◌,
  if◌then◌else◌,
}
use soc_analyst.Pystr.{Pystr, codes, strip, is_empty, same_text}

-- the columns that a field may fill, each with the names that fill it
abbrev pub aliases : List (String × List String)
aliases =
    (
      "event_timestamp",
      "timestamp" ∷ "time" ∷ "ts" ∷ "datetime" ∷ "date" ∷ "event_time" ∷ "eventtime"
          ∷ "event_timestamp" ∷ "occurred_at" ∷ "logged_at" ∷ "start_time" ∷ "first_seen" ∷ [],
    )
    ∷ (
      "message",
      "message" ∷ "msg" ∷ "description" ∷ "text" ∷ "summary" ∷ "details" ∷ "raw_message" ∷ [],
    )
    ∷ (
      "source_ip",
      "source_ip" ∷ "src_ip" ∷ "srcip" ∷ "src" ∷ "source" ∷ "client_ip" ∷ "clientip"
          ∷ "source_address" ∷ "src_addr" ∷ "saddr" ∷ "ip_src" ∷ "remote_addr" ∷ "remote_ip" ∷ [],
    )
    ∷ (
      "destination_ip",
      "destination_ip" ∷ "dest_ip" ∷ "dst_ip" ∷ "dstip" ∷ "dst" ∷ "destination" ∷ "server_ip"
          ∷ "destination_address" ∷ "dst_addr" ∷ "daddr" ∷ "ip_dst" ∷ "local_ip" ∷ [],
    )
    ∷ ("source_port", "source_port" ∷ "src_port" ∷ "sport" ∷ "spt" ∷ "client_port" ∷ [])
    ∷ (
      "destination_port",
      "destination_port" ∷ "dest_port" ∷ "dst_port" ∷ "dport" ∷ "dpt" ∷ "server_port" ∷ [],
    )
    ∷ (
      "event_type",
      "event_type" ∷ "eventtype" ∷ "type" ∷ "event" ∷ "event_name" ∷ "eventname" ∷ "signature"
          ∷ "rule_name" ∷ "rule" ∷ "alert_type" ∷ [],
    )
    ∷ ("severity", "severity" ∷ "level" ∷ "priority" ∷ "log_level" ∷ "loglevel" ∷ "sev" ∷ [])
    ∷ ("action", "action" ∷ "act" ∷ "disposition" ∷ "verdict" ∷ "operation" ∷ [])
    ∷ ("outcome", "outcome" ∷ "result" ∷ "status" ∷ "event_outcome" ∷ "success" ∷ [])
    ∷ ("category", "category" ∷ "cat" ∷ "class" ∷ "event_category" ∷ "facility" ∷ [])
    ∷ (
      "host",
      "host" ∷ "hostname" ∷ "device" ∷ "device_name" ∷ "computer" ∷ "computer_name" ∷ "agent_host"
          ∷ "source_host" ∷ "machine" ∷ [],
    )
    ∷ ("process", "process" ∷ "process_name" ∷ "proc" ∷ "application" ∷ "app" ∷ "service" ∷ [])
    ∷ (
      "username",
      "username" ∷ "user" ∷ "user_name" ∷ "account" ∷ "account_name" ∷ "subject_user" ∷ "login"
          ∷ "user_id" ∷ "actor" ∷ [],
    )
    ∷ ("protocol", "protocol" ∷ "proto" ∷ "ip_protocol" ∷ "transport" ∷ [])
    ∷ []

abbrev pub metadata_keys : List String
metadata_keys = "metadata" ∷ "meta" ∷ "extra" ∷ "fields" ∷ "labels" ∷ "tags" ∷ "attributes" ∷ []

-- `text in names`
unfoldable pub named : Pystr → List String → Bool
named text [] = false
named text (n ∷ ns) = same_text text (codes n) || named text ns

-- `_LOOKUP.get(canonical)`
unfoldable pub lookup_in : List (String × List String) → Pystr → Option Pystr
unfolding named
lookup_in [] text = none
lookup_in ((column, names) ∷ rest) text =
    let later = lookup_in rest text in if named text names then some (codes column) else later

unfoldable pub lookup : Pystr → Option Pystr
unfolding lookup_in
lookup text = lookup_in aliases text

unfoldable pub is_metadata : Pystr → Bool
unfolding named
is_metadata text = named text metadata_keys

-- `[a-z0-9]`
unfoldable pub is_key_char : ℕ → Bool
is_key_char c = (leb 97 c && leb c 122) || (leb 48 c && leb c 57)

-- `_NON_ALNUM.sub("_", text)`: one underscore for a run of other characters. The flag says that
-- the character before belonged to such a run.
unfoldable pub underscored : Bool → Pystr → Pystr
unfolding is_key_char
underscored in_run [] = []
underscored in_run (c ∷ cs) =
    let kept = underscored false cs in
    let run = underscored true cs in
    if is_key_char c then c ∷ kept else if in_run then run else 95 ∷ run

-- `text.strip("_")`
unfoldable pub trim_end : Pystr → Pystr
trim_end [] = []
trim_end (c ∷ cs) = let rest = trim_end cs in if c == 95 && is_empty rest then [] else c ∷ rest

unfoldable pub trim_start : Pystr → Pystr
trim_start [] = []
trim_start (c ∷ cs) = let rest = trim_start cs in if c == 95 then rest else c ∷ cs

unfoldable pub canonical_key : (Pystr → Pystr) → Pystr → Pystr
unfolding underscored trim_end trim_start
canonical_key lower key = trim_start (trim_end (underscored false (lower (strip key))))
