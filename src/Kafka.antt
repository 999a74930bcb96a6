-- ===== src/Kafka.antt =====
-- The Kafka client (pkg/kafka/client.go). Connections, topics and the sending of messages are
-- parameters; a writer stands for what it is made of. `time.Now()` of a message is left out.
pub mod Writers
pub mod Carried
use go_video_transcode_servi.Common.{
  ℕ, ℤ, Text, codes, text_eq, Bool, true, false, ◌||◌, List, [], ◌∷◌, ◌++◌, Option, none, some,
  Error, Result, ok, err, Op, itoa_ℤ, if◌then◌else◌,
}
use go_video_transcode_servi.Config.{Config}
use go_video_transcode_servi.RequestId.{CallContext, request_id_from_context}

pub record Writer : Type 0 where
  pub addresses : List Text
  pub topic : Text

pub record Message : Type 0 where
  pub key : Text
  pub value : Text
  pub headers : List (Text × Text)

-- `dialer` stands for the dialer, which has the client's identifier.
pub record Client : Type 0 where
  pub brokers : List Text
  pub client_id : Text
  pub dialer : Option Text
  pub writers : List (Text × Writer)  -- sync.Map

-- The names of this host are looked up as the host of the container.
lookup_host : {A : Type 0} → (Text → A) → Text → A
lookup_host resolve host = resolve (
    if text_eq host (codes "localhost")
      || text_eq host (codes "127.0.0.1")
      || text_eq host (codes "::1")
    then codes "host.docker.internal"
    else host)

-- `none` is a panic.
must_open : Option Config → Client → Option Client
must_open none c = none
must_open (some cfg) c = some (record c {
  brokers = cfg.kafka.bootstrap_servers;
  client_id = cfg.kafka.client_id;
  dialer = some cfg.kafka.client_id;
})

unfoldable pub load : Text → List (Text × Writer) → Option Writer
load topic [] = none
load topic ((t, w) ∷ rest) =
    let later = load topic rest in if text_eq t topic then some w else later

-- sync.Map's LoadOrStore: the value that is there, or the new one, which is stored.
abbrev pub stored_or :
    Option Writer → Text → Writer → List (Text × Writer) → List (Text × Writer) × Writer
stored_or (some v) topic w writers = (writers, v)
stored_or none topic w writers = ((topic, w) ∷ writers, w)

unfoldable pub load_or_store : Text → Writer → List (Text × Writer) → List (Text × Writer) × Writer
unfolding load
load_or_store topic w writers = stored_or (load topic writers) topic w writers

abbrev pub found_or :
    Option Writer → Text → (List (Text × Writer) → List (Text × Writer)) → Client → Client × Writer
found_or (some w) topic meanwhile c = (c, w)
found_or none topic meanwhile c =
    let (writers, w) =
      load_or_store topic (record { addresses = c.brokers; topic = topic }) (meanwhile c.writers) in
    (record c { writers = writers }, w)

-- Between the two looks another goroutine may have stored writers: `meanwhile` is what is there then.
unfoldable pub writer :
    Text → (List (Text × Writer) → List (Text × Writer)) → Client → Client × Writer
unfolding load load_or_store
writer topic meanwhile c = found_or (load topic c.writers) topic meanwhile c

-- The message that is sent, without its time.
unfoldable pub message_of : Option CallContext → Text → Text → Message
unfolding request_id_from_context
message_of ctx key value = record {
  key = key;
  value = value;
  headers = (codes "request-id", request_id_from_context ctx) ∷ [];
}

-- `write` is WriteMessages.
produce :
    {S : Type 0}
    → (Writer → Message → Op S (Option Error))
    → Option CallContext
    → Text
    → Text
    → Text
    → Client
    → Op S (Client × Option Error)
unfolding writer message_of
produce write ctx topic key value c s =
    let (c', w) = writer topic (λ writers. writers) c in
    let (failed, s') = write w (message_of ctx key value) s in ((c', failed), s')

-- A connection's calls.
record Network (S : Type 0) : Type 0 where
  pub dial : Text → Op S (Option Error)
  pub controller : Text → Op S (Result Error (Text × ℤ))
  pub create_topic : Text → Text → ℤ → ℤ → Op S (Option Error)
  pub hang_up : Text → S → S

module _ {S : Type 0} (net : Network S) (join_host_port : Text → Text → Text) where
  created : Text → Text → ℤ → ℤ → Option Error → Op S (Option Error)
  created address topic partitions replication (some e) s = (some e, s)
  created address topic partitions replication none s =
      let (failed, s') = net.create_topic address topic partitions replication s in
      (failed, net.hang_up address s')

  led : Text → ℤ → ℤ → Result Error (Text × ℤ) → Op S (Option Error)
  unfolding created
  led topic partitions replication (err e) s = (some e, s)
  led topic partitions replication (ok (host, port)) s =
      let address = join_host_port host (itoa_ℤ port) in
      let (failed, s') = net.dial address s in
      created address topic partitions replication failed s'

  dialled : Text → Text → ℤ → ℤ → Option Error → Op S (Option Error)
  unfolding led
  dialled broker topic partitions replication (some e) s = (some e, s)
  dialled broker topic partitions replication none s =
      let (found, s') = net.controller broker s in
      let (failed, s'') = led topic partitions replication found s' in
      (failed, net.hang_up broker s'')

  -- Without brokers there is nothing to do. Each connection that has been made is closed.
  ensure_topic : Text → ℤ → ℤ → List Text → Op S (Option Error)
  unfolding dialled
  ensure_topic topic partitions replication [] s = (none, s)
  ensure_topic topic partitions replication (broker ∷ rest) s =
      let (failed, s') = net.dial broker s in dialled broker topic partitions replication failed s'
