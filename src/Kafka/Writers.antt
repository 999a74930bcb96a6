-- ===== src/Kafka/Writers.antt =====
-- One writer for each topic.
use go_video_transcode_servi.Common.{Text, text_eq_refl, List, ◌≡◌, refl, Option, none, some}
use go_video_transcode_servi.Kafka.{
  Writer, Client, load, stored_or, load_or_store, found_or, writer,
}

stored_or-load :
    (found : Option Writer) (topic : Text) (w : Writer) (writers : List (Text × Writer))
    → load topic writers ≡ found
    → let (stored, v) = stored_or found topic w writers in load topic stored ≡ some v
unfolding load
stored_or-load (some v) topic w writers e = e
stored_or-load none topic w writers e = rw (text_eq_refl topic) refl

found_or-again :
    (found : Option Writer) (topic : Text)
    (meanwhile later : List (Text × Writer) → List (Text × Writer)) (c : Client)
    → load topic c.writers ≡ found
    → let (c', w) = found_or found topic meanwhile c in
      (load topic c'.writers ≡ some w) × (found_or (load topic c'.writers) topic later c' ≡ (c', w))
unfolding load_or_store
found_or-again (some w) topic meanwhile later c e = (e, rw e refl)
found_or-again none topic meanwhile later c e =
    let s =
      stored_or-load (load topic (meanwhile c.writers)) topic
        (record { addresses = c.brokers; topic = topic }) (meanwhile c.writers) refl in
    (s, rw s refl)

-- Whatever other goroutines store while a writer is being made, the writer that a topic is given is the
-- one that is stored for it, and the next call for the topic gives it again and changes nothing.
writer-writer :
    (topic : Text) (meanwhile later : List (Text × Writer) → List (Text × Writer)) (c : Client)
    → let (c', w) = writer topic meanwhile c in
      (load topic c'.writers ≡ some w) × (writer topic later c' ≡ (c', w))
unfolding writer
writer-writer topic meanwhile later c =
    found_or-again (load topic c.writers) topic meanwhile later c refl
