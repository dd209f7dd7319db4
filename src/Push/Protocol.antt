-- ===== src/Push/Protocol.antt =====
-- PROTOCOL.md: the messages from the relay to the client, as types of JSON documents, and the rules
-- by which a document has a type. The relay's code is in Push.Request and Push.Queries. The reply
-- to `stats`, which PROTOCOL.md names only, is as it is written in src/cpp/push/main.cpp.
pub mod Typed
use stream_monitor.Prelude.{List, [], ◌∷◌}
use stream_monitor.Prelude.Int.{ℤ}
use stream_monitor.Framing.{Bytes}
use stream_monitor.Json.{
  Json, null, int, str, arr, obj, Items, nil, cons, Members, end, field, codes,
}

-- `word` is one text only, `list` an array of any length, `row` an array with an entry for each
-- column, and `record_of` an object with these members. `id` is the one of the request, if it had one.
mutual
  pub data Shape : Type 0 where
    number number_or_null text text_or_null : Shape
    word : Bytes → Shape
    list : Shape → Shape
    row : Columns → Shape
    record_of : Fields → Shape

  pub data Columns : Type 0 where
    no_column : Columns
    column : Shape → Columns → Columns

  pub data Fields : Type 0 where
    no_field id_if_given : Fields
    member : Bytes → Shape → Fields → Fields

mutual
  pub data HasShape : Shape → Json → Type 0 where
    is_number : {n : ℤ} → HasShape number (int n)
    is_number_there : {n : ℤ} → HasShape number_or_null (int n)
    is_no_number : HasShape number_or_null null
    is_text : {s : Bytes} → HasShape text (str s)
    is_text_there : {s : Bytes} → HasShape text_or_null (str s)
    is_no_text : HasShape text_or_null null
    is_word : {w : Bytes} → HasShape (word w) (str w)
    is_list : {s : Shape} {xs : Items} → HasEntries s xs → HasShape (list s) (arr xs)
    is_row : {cs : Columns} {xs : Items} → HasColumns cs xs → HasShape (row cs) (arr xs)
    is_record : {fs : Fields} {ms : Members} → HasMembers fs ms → HasShape (record_of fs) (obj ms)

  pub data HasEntries : Shape → Items → Type 0 where
    no_entries : {s : Shape} → HasEntries s nil
    next_entry :
        {s : Shape} {x : Json} {xs : Items}
        → HasShape s x
        → HasEntries s xs
        → HasEntries s (cons x xs)

  pub data HasColumns : Columns → Items → Type 0 where
    no_columns : HasColumns no_column nil
    next_column :
        {s : Shape} {cs : Columns} {x : Json} {xs : Items}
        → HasShape s x
        → HasColumns cs xs
        → HasColumns (column s cs) (cons x xs)

  pub data HasMembers : Fields → Members → Type 0 where
    no_members : HasMembers no_field end
    no_id : HasMembers id_if_given end
    with_id : {s : Bytes} → HasMembers id_if_given (field (codes "id") (str s) end)
    next_member :
        {k : Bytes} {s : Shape} {fs : Fields} {v : Json} {ms : Members}
        → HasShape s v
        → HasMembers fs ms
        → HasMembers (member k s fs) (field k v ms)

-- The replies, by their `type`.
pub data Kind : Type 0 where
  hello channels samples stats error : Kind

abbrev pub name_of : Kind → Bytes
name_of hello = codes "hello"
name_of channels = codes "channels"
name_of samples = codes "samples"
name_of stats = codes "stats"
name_of error = codes "error"

abbrev pub channel_shape : Shape
channel_shape = record_of (
    member (codes "channel_id") text (
      member (codes "channel_name") text (
        member (codes "first_seen") number (
          member (codes "last_seen") number (
            member (codes "samples") number
              (member (codes "peak") number (member (codes "current") number no_field)))))))

-- [ts, viewers], and [ts, category, title].
abbrev pub point_shape : Shape
point_shape = row (column number (column number no_column))

abbrev pub info_shape : Shape
info_shape = row (column number (column text_or_null (column text_or_null no_column)))

abbrev pub members_of : Kind → Fields
members_of hello =
    member (codes "v") number
      (member (codes "now") number (member (codes "retain_days") number id_if_given))
members_of channels = member (codes "channels") (list channel_shape) id_if_given
members_of samples = member (codes "channel_id") text (
    member (codes "from") number (
      member (codes "to") number (
        member (codes "points") (list point_shape)
          (member (codes "info") (list info_shape) id_if_given))))
members_of stats = member (codes "clients") number (
    member (codes "samples") number (
      member (codes "oldest") number_or_null
        (member (codes "newest") number_or_null (member (codes "channels") number id_if_given))))
members_of error = member (codes "code") text (member (codes "message") text id_if_given)

abbrev pub shape_of : Kind → Shape
shape_of k = record_of (member (codes "type") (word (name_of k)) (members_of k))
