-- ===== src/Gateway/Streamed.antt =====
-- src/horizon.rs, `stream_once`: a connection of the stream follows the life of every intent.
use stellar_gate.Prelude.{
  ℕ, zero, suc, refl, inl, inr, Bool, true, false, ◌||◌, Option, none, some, List, [], ◌∷◌, ◌++◌,
  ◌==◌, list_eq, option_eq, nat_eq, length, take, drop, Option-cases, if◌then◌else◌,
}
use stellar_gate.Text.{Text, codes}
use stellar_gate.Money.{is_empty}
use stellar_gate.Webhook.{Libs, Config, Env}
use stellar_gate.Horizon.{HorizonPayment}
use stellar_gate.Horizon.Sse.{
  Decoding, Stream, stream_payment, handle_stream_event, handle_events, receive, stream_chunks,
  stream_once, find_event_end, parse_sse_block, data_of, move_to,
}
use stellar_gate.Gateway.Lookup.{HasDistinctIds}
use stellar_gate.Gateway.Statements.{Evolves, Evolves-same, Evolves-trans}
use stellar_gate.Gateway.Settling.{reconcile_payment-Evolves}

module _ (decoding : Decoding) (libs : Libs) (config : Config) (env : ℕ → Env) where
  still : (s : Stream) → HasDistinctIds s.outbound.db.payments → Evolves s.outbound.db s.outbound.db
  still s distinct = Evolves-same s.outbound.db s.outbound.db distinct refl refl

  stream_payment-Evolves :
      (found : Option HorizonPayment) (s : Stream)
      → HasDistinctIds s.outbound.db.payments
      → Evolves s.outbound.db (stream_payment decoding libs config env found s).outbound.db
  stream_payment-Evolves none s distinct = still s distinct
  stream_payment-Evolves (some hp) s distinct =
      reconcile_payment-Evolves libs config (env s.seen) hp s.outbound distinct

  either-Evolves :
      (test : Bool) (x y s : Stream)
      → Evolves s.outbound.db x.outbound.db
      → Evolves s.outbound.db y.outbound.db
      → Evolves s.outbound.db (if test then x else y).outbound.db
  either-Evolves true x y s hx hy = hx
  either-Evolves false x y s hx hy = hy

  handle_stream_event-Evolves :
      (block : Text) (s : Stream)
      → HasDistinctIds s.outbound.db.payments
      → Evolves s.outbound.db (handle_stream_event decoding libs config env block s).outbound.db
  unfolding handle_stream_event
  handle_stream_event-Evolves block s distinct =
      let ev = parse_sse_block block in
      let s' = record s { cursor = move_to ev.id s.cursor } in
      let body = data_of ev.data_lines in
      either-Evolves (ev.event == some (codes "open") || is_empty body) s'
        (stream_payment decoding libs config env (decoding.payment_of body) s') s (still s distinct)
        (stream_payment-Evolves (decoding.payment_of body) s' distinct)

  handle_events-Evolves :
      (fuel : ℕ) (buf : List ℕ) (s : Stream)
      → HasDistinctIds s.outbound.db.payments
      → Evolves s.outbound.db (handle_events decoding libs config env fuel buf s).1.outbound.db
  unfolding handle_events
  handle_events-Evolves zero buf s distinct = still s distinct
  handle_events-Evolves (suc fuel) buf s distinct = elim (Option-cases (find_event_end buf)) [
    | inl e ↦ rw (e, handle_events) (still s distinct)
    | inr (end, e) ↦
        let block = decoding.from_utf8_lossy (take end buf) in
        let first = handle_stream_event-Evolves block s distinct in
        let s' = handle_stream_event decoding libs config env block s in
        rw (e, handle_events)
          (Evolves-trans s.outbound.db s'.outbound.db _ first
            (handle_events-Evolves fuel (drop end buf) s' first.distinct))
  ]

  stream_chunks-Evolves :
      (chunks : List (Option (List ℕ))) (buf : List ℕ) (s : Stream)
      → HasDistinctIds s.outbound.db.payments
      → Evolves s.outbound.db (stream_chunks decoding libs config env chunks (buf, s)).outbound.db
  unfolding stream_chunks
  stream_chunks-Evolves [] buf s distinct = still s distinct
  stream_chunks-Evolves (none ∷ chunks) buf s distinct = still s distinct
  stream_chunks-Evolves (some chunk ∷ chunks) buf s distinct =
      let (left, s') = receive decoding libs config env chunk (buf, s) in
      let first = handle_events-Evolves (length (buf ++ chunk)) (buf ++ chunk) s distinct in
      Evolves-trans s.outbound.db s'.outbound.db _ first
        (stream_chunks-Evolves chunks left s' first.distinct)

  pub stream_once-Evolves :
      (chunks : List (Option (List ℕ))) (s : Stream)
      → HasDistinctIds s.outbound.db.payments
      → Evolves s.outbound.db (stream_once decoding libs config env chunks s).outbound.db
  unfolding stream_once
  stream_once-Evolves chunks s distinct = stream_chunks-Evolves chunks [] s distinct
