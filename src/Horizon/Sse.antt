-- ===== src/Horizon/Sse.antt =====
-- src/horizon.rs: the event stream of Horizon, its parser and the loop over the chunks of one
-- connection. UTF-8 and JSON decoding, and the chunks, are parameters.
pub mod Delimiter
pub mod Chunks
use stellar_gate.Prelude.{
  ℕ, zero, suc, ◌+◌, Bool, true, false, ◌&&◌, ◌||◌, Option, none, some, List, [], ◌∷◌, ◌++◌, min,
  ◌==◌, list_eq, option_eq, nat_eq, length, take, drop, if◌then◌else◌,
}
use stellar_gate.Text.{Text, codes}
use stellar_gate.Money.{is_empty}
use stellar_gate.Health.{TaskHealth, note_success}
use stellar_gate.Webhook.{Libs, Config, Env, Outbound}
use stellar_gate.Horizon.{HorizonPayment, reconcile_payment}

pub record SseEvent : Type 0 where
  pub event : Option Text
  pub id : Option Text
  pub data_lines : List Text

abbrev pub no_event : SseEvent
no_event = record { event = none; id = none; data_lines = [] }

unfoldable pub strip_prefix : Text → Text → Option Text
strip_prefix [] s = some s
strip_prefix (p ∷ prefix) [] = none
strip_prefix (p ∷ prefix) (c ∷ s) =
    let rest = strip_prefix prefix s in if p == c then rest else none

unfoldable pub starts_with : List ℕ → List ℕ → Bool
starts_with [] s = true
starts_with (p ∷ prefix) [] = false
starts_with (p ∷ prefix) (c ∷ s) = p == c && starts_with prefix s

abbrev onto_line : ℕ → List Text → List Text
onto_line c [] = (c ∷ []) ∷ []
onto_line c (l ∷ lines) = (c ∷ l) ∷ lines

-- `str::lines`: the lines end at `\n` or `\r\n`, and the last one may lack its end.
unfoldable pub lines : Text → List Text
unfolding starts_with
lines [] = []
lines (c ∷ s) =
    let rest = lines s in
    if c == b'\n'
    then [] ∷ rest
    else if c == b'\r' && starts_with (b'\n' ∷ []) s
    then rest
    else onto_line c rest

-- A value without its single leading space.
abbrev pub sse_value : Text → Text
sse_value [] = []
sse_value (c ∷ s) = if c == b' ' then s else c ∷ s

abbrev id_field : SseEvent → Option Text → SseEvent
id_field ev none = ev
id_field ev (some rest) = record ev { id = some (sse_value rest) }

abbrev event_field : SseEvent → Text → Option Text → SseEvent
event_field ev line none = id_field ev (strip_prefix (codes "id:") line)
event_field ev line (some rest) = record ev { event = some (sse_value rest) }

abbrev data_field : SseEvent → Text → Option Text → SseEvent
data_field ev line none = event_field ev line (strip_prefix (codes "event:") line)
data_field ev line (some rest) = record ev { data_lines = ev.data_lines ++ sse_value rest ∷ [] }

unfoldable pub parse_lines : List Text → SseEvent → SseEvent
unfolding strip_prefix
parse_lines [] ev = ev
parse_lines (line ∷ rest) ev =
    parse_lines rest (data_field ev line (strip_prefix (codes "data:") line))

unfoldable pub parse_sse_block : Text → SseEvent
unfolding lines parse_lines
parse_sse_block block = parse_lines (lines block) no_event

-- `data_lines.join("\n")`
unfoldable pub data_of : List Text → Text
data_of [] = []
data_of (line ∷ []) = line
data_of (line ∷ next ∷ rest) = line ++ b'\n' ∷ data_of (next ∷ rest)

abbrev later : Option ℕ → Option ℕ
later none = none
later (some i) = some (suc i)

-- The first index at which the bytes of `delimiter` stand.
unfoldable pub position_of : List ℕ → List ℕ → Option ℕ
unfolding starts_with
position_of delimiter [] = none
position_of delimiter (b ∷ buf) =
    let rest = later (position_of delimiter buf) in
    if starts_with delimiter (b ∷ buf) then some 0 else rest

abbrev pub behind : ℕ → Option ℕ → Option ℕ
behind n none = none
behind n (some i) = some (i + n)

abbrev pub earlier : Option ℕ → Option ℕ → Option ℕ
earlier (some a) (some b) = some (min a b)
earlier (some a) none = some a
earlier none b = b

unfoldable pub find_event_end : List ℕ → Option ℕ
unfolding position_of
find_event_end buf =
    earlier (behind 2 (position_of (10 ∷ 10 ∷ []) buf))
      (behind 4 (position_of (13 ∷ 10 ∷ 13 ∷ 10 ∷ []) buf))

-- `String::from_utf8_lossy` and `serde_json::from_str`.
pub record Decoding : Type 0 where
  pub from_utf8_lossy : List ℕ → Text
  pub payment_of : Text → Option HorizonPayment

-- The reconnect cursor, the number of events so far, and the state.
pub record Stream : Type 0 where
  pub cursor : Text
  pub seen : ℕ
  pub health : TaskHealth
  pub outbound : Outbound

abbrev pub move_to : Option Text → Text → Text
move_to none cursor = cursor
move_to (some id) cursor = id

module _ (decoding : Decoding) (libs : Libs) (config : Config) (env : ℕ → Env) where
  -- An error of the reconciliation is only logged.
  abbrev pub stream_payment : Option HorizonPayment → Stream → Stream
  stream_payment none s = s
  stream_payment (some hp) s = record s {
    health = note_success s.health (env s.seen).now;
    outbound = (reconcile_payment libs config (env s.seen) hp s.outbound).1;
  }

  abbrev pub counted : Stream → Stream
  counted s = record s { seen = s.seen + 1 }

  -- The cursor moves first, whatever becomes of the event.
  unfoldable pub handle_stream_event : Text → Stream → Stream
  unfolding parse_sse_block data_of
  handle_stream_event block s =
      let ev = parse_sse_block block in
      let s' = record s { cursor = move_to ev.id s.cursor } in
      let body = data_of ev.data_lines in
      counted (
        if ev.event == some (codes "open") || is_empty body
        then s'
        else stream_payment (decoding.payment_of body) s')

  -- `while let Some(end) = find_event_end(&buf)`, along fuel: the bytes that are left, and the state.
  unfoldable pub handle_events : ℕ → List ℕ → Stream → List ℕ × Stream
  unfolding handle_stream_event find_event_end
  handle_events zero buf s = (buf, s)
  handle_events (suc fuel) buf s = elim (find_event_end buf) [
    | none ↦ (buf, s)
    | some end ↦
        handle_events fuel (drop end buf)
          (handle_stream_event (decoding.from_utf8_lossy (take end buf)) s)
  ]

  -- One chunk; every event has a byte at least, so the length of the buffer is enough fuel.
  abbrev pub receive : List ℕ → List ℕ × Stream → List ℕ × Stream
  receive chunk (buf, s) = handle_events (length (buf ++ chunk)) (buf ++ chunk) s

  -- The chunks of one connection; `none` is a chunk that fails, which ends it.
  unfoldable pub stream_chunks : List (Option (List ℕ)) → List ℕ × Stream → Stream
  unfolding handle_events
  stream_chunks [] r = r.1
  stream_chunks (none ∷ chunks) r = r.1
  stream_chunks (some chunk ∷ chunks) r = stream_chunks chunks (receive chunk r)

  -- A connection starts with an empty buffer.
  unfoldable pub stream_once : List (Option (List ℕ)) → Stream → Stream
  unfolding stream_chunks
  stream_once chunks s = stream_chunks chunks ([], s)
