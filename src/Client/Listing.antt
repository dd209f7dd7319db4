-- ===== src/Client/Listing.antt =====
-- The reply to a channels request, as the client lists it.
use stream_monitor.Prelude.{
  ℕ, ◌≡◌, ◌≢◌, refl, ◌∙◌, true, List, [], ◌∷◌, ◌++◌, map, Option, some, arith, All,
}
use stream_monitor.Prelude.Int.{ℤ, pos, negsuc, ◌-ℤ◌}
use stream_monitor.Framing.{Bytes}
use stream_monitor.Json.{
  Json, items, object, codes, bytes_eq, c_str, c_str_id, c_str-IsCStr, find_member, json_str,
  string_or_empty,
}
use stream_monitor.Db.{Tables}
use stream_monitor.Push.Conn.{id_member}
use stream_monitor.Push.Request.{type_member}
use stream_monitor.Push.Queries.{Row, rows, row_fields, row_json, or_zero, channels}
use stream_monitor.Client.{
  Wide, Listed, Call, on_channels, is_int, to_int, low_bits, signed, wide, json_wstr, json_i64,
  listed, push_listed, read_channels, handle_members, handle_line,
}

to_int_id : (n : ℤ) → is_int n ≡ true → to_int n ≡ n
unfolding is_int to_int low_bits signed
to_int_id (pos n) h = ground arith
to_int_id (negsuc n) h = ground arith

module _ (convert : Bytes → Wide) where
  -- A row as it is listed.
  abbrev pub listed_of : Row → Listed
  listed_of r = record {
    id = wide convert (c_str r.channel.channel_id);
    name = wide convert (c_str r.channel.channel_name);
    first_seen = pos r.channel.first_seen;
    last_seen = pos r.channel.last_seen;
    samples = pos r.totals.count;
    peak = r.totals.peak;
    current = or_zero r.current;
  }

  -- A row with an id and with numbers of 32 bits.
  pub record IsListed (r : Row) : Type 0 where
    pub has_id : wide convert (c_str r.channel.channel_id) ≢ []
    pub count : is_int (pos r.totals.count) ≡ true
    pub peak : is_int r.totals.peak ≡ true
    pub current : is_int (or_zero r.current) ≡ true

  push_listed-id :
      (c : Listed) (id : Wide) (cs : List Listed) → id ≢ [] → push_listed convert c id cs ≡ c ∷ cs
  unfolding push_listed
  push_listed-id c [] cs h = absurd (h refl)
  push_listed-id c (x ∷ id) cs h = refl

  read_channels-rows :
      (rs : List Row)
      → All IsListed rs
      → read_channels convert (items (map row_json rs)) ≡ map listed_of rs
  unfolding read_channels listed json_wstr json_i64 find_member bytes_eq
  read_channels-rows [] h = refl
  read_channels-rows (r ∷ rs) h =
      let again : (o : Bytes) → c_str (c_str o) ≡ c_str o =
        λ o. c_str_id (c_str o) (c_str-IsCStr o) in
      push_listed-id (listed convert (row_fields r)) (listed convert (row_fields r)).id
        (read_channels convert (items (map row_json rs)))
        (rw (again r.channel.channel_id) h.0.has_id)
      ∙ rw (
        again r.channel.channel_id,
        again r.channel.channel_name,
        to_int_id (pos r.totals.count) h.0.count,
        to_int_id r.totals.peak h.0.peak,
        to_int_id (or_zero r.current) h.0.current,
        read_channels-rows rs h.1,
      )

  -- The reply to a channels request, with the rows of the query, calls `on_channels` with these
  -- rows in their order: if the ids do not convert to empty texts and the numbers have 32 bits,
  -- and the client's parser reads back the document of the reply.
  pub handle_line-channels :
      (parse : Bytes → Option Json) (t : Tables) (now : ℕ) (id : Option Bytes) (line : Bytes)
      (calls : List Call)
      → All IsListed (rows t (pos now -ℤ pos 604800) t.channels)
      → parse (c_str line)
        ≡ some (object ((type_member (codes "channels") ++ channels t now) ++ id_member id))
      → handle_line convert parse calls line
        ≡ calls ++ (on_channels (map listed_of (rows t (pos now -ℤ pos 604800) t.channels)) ∷ [])
  unfolding handle_line handle_members channels json_str find_member bytes_eq c_str string_or_empty
  handle_line-channels parse t now id line calls h p =
      rw (p, read_channels-rows (rows t (pos now -ℤ pos 604800) t.channels) h)
