-- ===== src/Config/Json.antt =====
-- The JSON form of a configuration in config.go: `MarshalJSON`, `UnmarshalJSON`, `formatDuration` and
-- `parseDurationJSON`. `time.Duration.String` and `time.ParseDuration` are arguments.
pub mod RoundTrip
use Prim.Native.String.{String}
use cpa_plugin_codex_auto_re.Prelude.{
  ℤ, pos, Bool, true, false, ◌||◌, Option, none, some, List, if◌then◌else◌, str_eq,
}
use cpa_plugin_codex_auto_re.Models.{Duration, Config}
use cpa_plugin_codex_auto_re.Client.{GoError, Result, ok, err}

-- `strings.HasSuffix(s, suffix)`.
abbrev pub has_suffix : String → String → Bool
has_suffix suffix String.[] = str_eq String.[] suffix
has_suffix suffix (String.◌∷◌ c s) = str_eq (String.◌∷◌ c s) suffix || has_suffix suffix s

-- `s[:len(s)-2]`, of a text that ends in two ASCII characters.
abbrev pub without_last_two : String → String
without_last_two String.[] = String.[]
without_last_two (String.◌∷◌ c String.[]) = String.[]
without_last_two (String.◌∷◌ c (String.◌∷◌ d String.[])) = String.[]
without_last_two (String.◌∷◌ c (String.◌∷◌ d (String.◌∷◌ e s))) =
    String.◌∷◌ c (without_last_two (String.◌∷◌ d (String.◌∷◌ e s)))

abbrev pub cut_if : String → String → String
cut_if suffix s = if has_suffix suffix s then without_last_two s else s

-- The `json.RawMessage` of a duration: left out or blank, `null`, a text, a whole number, or other JSON.
pub data RawDuration : Type 0 where
  absent : RawDuration
  null : RawDuration
  text : String → RawDuration
  number : ℤ → RawDuration
  other : RawDuration

-- The object that stands for a configuration, by its fields. A list may be `null`, as the nil slice is;
-- a field that `omitempty` leaves out is `none`.
pub record ConfigJson : Type 0 where
  pub refresh_interval : RawDuration
  pub trigger_lead_time : RawDuration
  pub enabled_accounts : List String
  pub state_dir : Option String

module _ (show : Duration → String) (parse : String → Result Duration) where
  unfoldable pub format_duration : Duration → String
  format_duration d = cut_if "h0m" (cut_if "m0s" (show d))

  -- The state directory is not copied to the alias, so that it is empty there and is left out.
  unfoldable pub marshal_json : Config → ConfigJson
  unfolding format_duration
  marshal_json c = record {
    refresh_interval = RawDuration.text (format_duration c.refresh_interval);
    trigger_lead_time = RawDuration.text (format_duration c.trigger_lead_time);
    enabled_accounts = c.enabled_accounts;
    state_dir = none;
  }

  abbrev pub parsed_as : String → Result Duration → Result Duration
  parsed_as s (ok d) = ok d
  parsed_as s (err e) = err (GoError.wrapped "parse %q: %w" e)

  -- `null` decodes into a text, which stays empty.
  unfoldable pub parse_duration_json : RawDuration → Result Duration
  parse_duration_json RawDuration.absent = ok (pos 0)
  parse_duration_json RawDuration.null = ok (pos 0)
  parse_duration_json (RawDuration.text s) =
      if str_eq s "" then ok (pos 0) else parsed_as s (parse s)
  parse_duration_json (RawDuration.number n) = ok n
  parse_duration_json RawDuration.other =
      err (GoError.plain "must be a duration string like \"12h\" or a nanosecond integer")

  abbrev pub or_no_dir : Option String → String
  or_no_dir none = ""
  or_no_dir (some dir) = dir

  abbrev pub with_intervals : ConfigJson → Result Duration → Result Duration → Result Config
  with_intervals a (err e) d2 = err (GoError.wrapped "refresh_interval: %w" e)
  with_intervals a (ok d1) (err e) = err (GoError.wrapped "trigger_lead_time: %w" e)
  with_intervals a (ok d1) (ok d2) = ok (record {
    refresh_interval = d1;
    trigger_lead_time = d2;
    enabled_accounts = a.enabled_accounts;
    state_dir = or_no_dir a.state_dir;
  })

  unfoldable pub unmarshal_json : ConfigJson → Result Config
  unfolding parse_duration_json
  unmarshal_json a =
      with_intervals a (parse_duration_json a.refresh_interval)
        (parse_duration_json a.trigger_lead_time)
