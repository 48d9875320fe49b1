-- ===== src/Link/Deliveries.antt =====
-- A record as the reader of a shard delivers it, beside the same record in the log of the harness.
use ruststream_kinesis.Prelude.{
  ℕ, ◌≡◌, ◌⊎◌, refl, sym, ap, ◌∙◌, inl, inr, true, false, ℕ, List, ◌++◌, some, [], ◌∷◌, Text,
  str_eq, length, ok, err, Bool-cases,
}
use ruststream_kinesis.Error.{aggregated_record}
use ruststream_kinesis.Envelope.{Envelope}
use ruststream_kinesis.Envelope.Headers.{
  HeaderMap, partition_key_header, sequence_header, shard_header,
}
use ruststream_kinesis.Envelope.Headers.Laws.{insert_all}
use ruststream_kinesis.Envelope.Payload.{fit}
use ruststream_kinesis.Message.{Received, open_message, read_headers, envelope_headers, shard}
use ruststream_kinesis.Message
use ruststream_kinesis.Message.{tracker_at}
use ruststream_kinesis.Track
use ruststream_kinesis.Lease.{LeaseStore}
use ruststream_kinesis.InProcess.Log.{Delivery, Feed, deliver, in_process_shard}
use ruststream_kinesis.InProcess.Bus.ReadsBack.{message_of}
use ruststream_kinesis.Subscriber.{Stamped, live_item}
use ruststream_kinesis.Subscriber.Service.{Service, Record}
use ruststream_kinesis.Subscriber.Reader.{
  Scene, Reader, Post, Step, goes, drains, stops, forward, send, is_aggregated, unwrap_or_default,
}
use ruststream_kinesis.Subscriber.Reader.Items.{delivery}

module _ (h : HeaderMap) (e : Envelope) (name : Text) where
  -- What a handler reads of two deliveries is the same.
  abbrev pub ReadsAlike : Received → Received → Type 0
  ReadsAlike a b =
      (Message.payload (open_message e a) ≡ Message.payload (open_message e b))
      × (h.get name (read_headers h e (open_message e a))
          ≡ h.get name (read_headers h e (open_message e b)))

  -- What the two names of a place leave of a record's headers.
  abbrev read_of : Text → Text → h.Map
  read_of content key = h.insert partition_key_header key (
      insert_all h
        (envelope_headers (e.read_headers content (fit (e.body content) (length content)))) h.new)

  past_place :
      (x y : Text) (m : h.Map)
      → str_eq shard_header name ≡ false
      → str_eq sequence_header name ≡ false
      → h.get name (h.insert shard_header x (h.insert sequence_header y m)) ≡ h.get name m
  past_place x y m no_shard no_sequence =
      h.get-insert shard_header name x (h.insert sequence_header y m)
      ∙ rw no_shard (h.get-insert sequence_header name y m ∙ rw no_sequence refl)

  headers_lem :
      (r : Received)
      → str_eq shard_header name ≡ false
      → str_eq sequence_header name ≡ false
      → h.get name (read_headers h e (open_message e r))
        ≡ h.get name (read_of r.content r.partition_key)
  unfolding read_headers open_message
  headers_lem r no_shard no_sequence =
      past_place (shard r.settlement) r.sequence (read_of r.content r.partition_key) no_shard
        no_sequence

  alike_lem :
      (a b : Received)
      → a.content ≡ b.content
      → a.partition_key ≡ b.partition_key
      → str_eq shard_header name ≡ false
      → str_eq sequence_header name ≡ false
      → ReadsAlike a b
  unfolding Message.payload open_message
  alike_lem a b same same_key no_shard no_sequence = (
    ap (λ content. Message.payload (open_message e (record a { content = content }))) same,
    headers_lem a no_shard no_sequence
        ∙ ap (λ content. h.get name (read_of content a.partition_key)) same
        ∙ ap (λ key. h.get name (read_of b.content key)) same_key
        ∙ sym (headers_lem b no_shard no_sequence),
  )

  -- What a reader does with a record, and the harness with one of its log, when the reader goes on with
  -- a subscriber still there: both refuse the record as aggregated, or both deliver it.
  abbrev pub Agree :
      {B V S : Type 0} → Post → ℕ → List Stamped → Text → Delivery B → Feed B → Step V S → Type 0
  Agree post epoch out stream d f (goes r' w') =
      (((deliver stream d f).0 ≡ err (aggregated_record in_process_shard))
        × (w'.out
            ≡ out ++ live_item epoch post.gate (err (aggregated_record post.lease.shard)) ∷ []))
      ⊎ ((a b : Received) × ((deliver stream d f).0 ≡ ok a)
          × (w'.out ≡ out ++ live_item epoch post.gate (ok b) ∷ [])
          × ReadsAlike a b)
  Agree post epoch out stream d f (drains r' w') = true ≡ false
  Agree post epoch out stream d f (stops rewind w') = true ≡ false

  -- A record that the service holds under the key and with the data of a record of the log comes to the
  -- subscription as that one does, while the subscriber is there: the reader and the harness both
  -- refuse it as an aggregated record, or both deliver it, and then its handler reads one payload
  -- and, but for the shard and the sequence number, the same headers. The reader goes on, and has put
  -- the one item into the channel.
  pub deliver-forward :
      {B V S : Type 0} (service : Service V) (store : LeaseStore S) (post : Post) (epoch : ℕ)
      (rec : Record) (r : Reader) (w : Scene V S) (stream : Text) (d : Delivery B) (f : Feed B)
      → w.closed ≡ false
      → rec.content ≡ d.kept.content
      → rec.partition_key ≡ some d.kept.partition_key
      → str_eq shard_header name ≡ false
      → str_eq sequence_header name ≡ false
      → Agree post epoch w.out stream d f (forward service store post epoch rec r w)
  unfolding deliver forward send is_aggregated
  deliver-forward service store post epoch rec r w stream d f there same same_key no_shard
        no_sequence =
      let index = (Track.deliver rec.sequence_number (tracker_at w.world r.tracker)).0 in
      elim (Bool-cases (is_aggregated d.kept.content)) [
        | inl aggregated ↦
            rw (same, forward)
              (rw (aggregated, forward)
                (rw (there, forward) (inl (rw (aggregated, deliver) refl, refl))))
        | inr plain ↦
            let whole : is_aggregated rec.content ≡ false = ap is_aggregated same ∙ plain in
            rw (whole, forward)
              (rw (there, forward)
                (inr (
                  message_of stream d,
                  delivery post epoch r.tracker index rec,
                  rw (plain, deliver) refl,
                  refl,
                  alike_lem (message_of stream d) (delivery post epoch r.tracker index rec)
                      (sym same) (sym (ap unwrap_or_default same_key)) no_shard no_sequence,
                )))
      ]
