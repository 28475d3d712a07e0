-- ===== src/Tests/Stream.antt =====
-- src/horizon.rs, the event stream: the frames of the source's own tests, and one record in two
-- chunks.
use stellar_gate.Prelude.{ℕ, ◌≡◌, refl, some, List, [], ◌∷◌, ◌++◌, map}
use stellar_gate.Text.{Text, codes}
use stellar_gate.Health.{new_task_health}
use stellar_gate.Webhook.{Env, send_error}
use stellar_gate.Horizon.Sse.{Decoding, Stream, parse_sse_block, find_event_end, stream_once}
use stellar_gate.Horizon.Sse.Chunks.{stream_once-concat}
use stellar_gate.Tests.Fixtures.{first, libs, config, answering, outbound}

abbrev newline : Text
newline = b'\n' ∷ []

parses_payment_sse_event :
    parse_sse_block (
      codes "id: 123"
      ++ newline
      ++ codes "event: message"
      ++ newline
      ++ codes "data: {}"
      ++ newline)
    ≡ record {
      event = some (codes "message");
      id = some (codes "123");
      data_lines = codes "{}" ∷ [];
    }
unfolding parse_sse_block
parses_payment_sse_event = refl

find_event_end_detects_complete_events :
    find_event_end (codes "data: x" ++ newline ++ newline ++ codes "rest") ≡ some 9
unfolding find_event_end
find_event_end_detects_complete_events = refl

abbrev decoding : Decoding
decoding = record { from_utf8_lossy = λ bytes. bytes; payment_of = λ body. some first }

abbrev env : ℕ → Env
env i = answering (λ n. send_error)

abbrev before : Stream
before = record { cursor = codes "now"; seen = 0; health = new_task_health; outbound = outbound }

abbrev in_two : List (List ℕ)
in_two = (codes "id: 7" ++ newline ++ codes "dat") ∷ (codes "a: {}" ++ newline ++ newline) ∷ []

abbrev in_one : List (List ℕ)
in_one = (codes "id: 7" ++ newline ++ codes "data: {}" ++ newline ++ newline) ∷ []

stream_once-concat_example :
    stream_once decoding libs config env (map some in_two) before
    ≡ stream_once decoding libs config env (map some in_one) before
stream_once-concat_example = stream_once-concat decoding libs config env in_two in_one before refl
