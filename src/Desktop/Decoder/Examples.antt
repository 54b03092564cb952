-- ===== src/Desktop/Decoder/Examples.antt =====
-- The decoder at one message.
use codexhook.Base.{◌≡◌, refl, String, some}
use codexhook.Json.{
  Json, null, number, text, array, object, Items, no_items, item, Members, no_members, member,
  natural, field,
}
use codexhook.Desktop.{snapshot}
use codexhook.Desktop.Decoder.{
  delivery_ids, desktop_stream_envelope, stream_of, read_snapshot, read_change, read_desktop_change,
}
use codexhook.Desktop.Decoder.Deliveries.{contains, occurs, delivery_ids-occurs}
use codexhook.Desktop.Decoder.Changes.{IsBound, read_desktop_change-IsBound}

abbrev turn_items : Items
turn_items = item (object (member "clientUserMessageId" (text "delivery-1") no_members)) (
    item null
      (item (object (member "clientUserMessageId" (text "delivery-2") no_members)) no_items))

abbrev entity : Json
entity = object (
    member "turnId" (text "turn-1")
      (member "status" (text "completed") (member "items" (array turn_items) no_members)))

delivery_ids-occurs_example :
    contains "delivery-2" (delivery_ids (some entity)) ≡ occurs "delivery-2" entity
delivery_ids-occurs_example = delivery_ids-occurs "delivery-2" entity

-- An object with one member.
abbrev single : String → Json → Json
single key value = object (member key value no_members)

abbrev change : Members
change = member "type" (text "snapshot") (
    member "revision" (number (natural 3)) (
      member "conversationState"
        (single "turnHistory" (single "history" (single "entitiesByKey" (single "a" entity))))
        no_members))

abbrev message : Members
message = member "type" (text "broadcast") (
    member "method" (text "thread-stream-state-changed") (
      member "params"
        (object
          (member "conversationId" (text "task") (member "change" (object change) no_members)))
        no_members))

read_desktop_change-IsBound_example : IsBound (snapshot (read_snapshot change))
unfolding read_desktop_change desktop_stream_envelope stream_of read_change field
read_desktop_change-IsBound_example =
    read_desktop_change-IsBound message "task" (snapshot (read_snapshot change)) refl
