-- ===== src/Push/Protocol/Typed.antt =====
-- Every document that the relay answers with has the type of the protocol.
use mathlib.Core.Path.{subst}
use stream_monitor.Prelude.{
  ℕ, ◌≡◌, refl, sym, ◌||◌, if-elim, ◌⊎◌, inl, inr, true, List, [], ◌∷◌, ◌++◌, map, Option, none,
  some,
}
use stream_monitor.Prelude.Int.{ℤ, pos, ltb_ℤ, ◌-ℤ◌}
use stream_monitor.Framing.{Bytes}
use stream_monitor.Json.{
  Json, int, obj, fields, items, Members, codes, c_str, json_str, bytes_eq, bytes_eq_iff,
}
use stream_monitor.Db.{Sample, Info, Tables}
use stream_monitor.Push.Conn.{Conn, proto_v, max_range, id_member, error_body}
use stream_monitor.Push.Queries.{
  Row, row_json, point_json, info_json, text_json, time_json, channels, samples, stats, queries,
}
use stream_monitor.Push.Request.{
  Env, type_member, request_id, channel_arg, window_from, window_to, handle_line,
}
use stream_monitor.Push.Request.Answer.{
  document, problem, samples_answer, object_answer, doc_answer, line-answer,
}
use stream_monitor.Push.Protocol.{
  Shape, HasShape, HasEntries, HasMembers, is_number, is_number_there, is_no_number, is_text,
  is_text_there, is_no_text, is_word, is_list, is_row, is_record, no_entries, next_entry,
  no_columns, next_column, no_members, no_id, with_id, next_member, id_if_given, Kind, shape_of,
  channel_shape, point_shape, info_shape, name_of, number_or_null, text_or_null, error, hello,
}

ruleset typing = (
  is_number, is_number_there, is_no_number, is_text, is_text_there, is_no_text, is_word, is_list,
  is_row, is_record, no_entries, no_columns, next_column, no_members, no_id, with_id, next_member,
)

id-HasMembers : (id : Option Bytes) → HasMembers id_if_given (fields (id_member id))
id-HasMembers none = no_id
id-HasMembers (some s) = with_id

text_json-HasShape : (o : Option Bytes) → HasShape text_or_null (text_json o)
text_json-HasShape none = is_no_text
text_json-HasShape (some s) = is_text_there

time_json-HasShape : (o : Option ℕ) → HasShape number_or_null (time_json o)
time_json-HasShape none = is_no_number
time_json-HasShape (some t) = is_number_there

map-HasEntries :
    {A : Type 0} (s : Shape) (f : A → Json) (xs : List A)
    → ((x : A) → HasShape s (f x))
    → HasEntries s (items (map f xs))
map-HasEntries s f [] h = no_entries
map-HasEntries s f (x ∷ xs) h = next_entry (h x) (map-HasEntries s f xs h)

row_json-HasShape : (r : Row) → HasShape channel_shape (row_json r)
row_json-HasShape r = search typing depth 20

point_json-HasShape : (s : Sample) → HasShape point_shape (point_json s)
point_json-HasShape s = search typing

info_json-HasShape : (r : Info) → HasShape info_shape (info_json r)
info_json-HasShape r = search (typing, text_json-HasShape) depth 20

error-HasShape :
    (id : Option Bytes) (code message : Bytes)
    → HasShape (shape_of error) (document id (error_body code message))
unfolding error_body
error-HasShape id code message = search (typing, id-HasMembers) depth 20

hello-HasShape :
    (id : Option Bytes) (v now retain_days : ℤ)
    → HasShape (shape_of hello) (
        document id (
          type_member (codes "hello")
          ++ ((codes "v", int v)
              ∷ (codes "now", int now)
              ∷ (codes "retain_days", int retain_days)
              ∷ [])))
hello-HasShape id v now retain_days = search (typing, id-HasMembers) depth 20

channels-HasShape :
    (id : Option Bytes) (t : Tables) (now : ℕ)
    → HasShape
        (shape_of Kind.channels)
        (document id (type_member (codes "channels") ++ channels t now))
unfolding channels
channels-HasShape id t now =
    search (typing, id-HasMembers, map-HasEntries, row_json-HasShape) depth 20

samples-HasShape :
    (id : Option Bytes) (t : Tables) (ch : Bytes) (from to : ℤ)
    → HasShape
        (shape_of Kind.samples)
        (document id (type_member (codes "samples") ++ samples t ch from to))
unfolding samples
samples-HasShape id t ch from to =
    search (typing, id-HasMembers, map-HasEntries, point_json-HasShape, info_json-HasShape) depth 20

stats-HasShape :
    (id : Option Bytes) (t : Tables) (clients : ℕ)
    → HasShape (shape_of Kind.stats) (
        document id
          ((type_member (codes "stats") ++ (codes "clients", int (pos clients)) ∷ []) ++ stats t))
unfolding stats
stats-HasShape id t clients = search (typing, id-HasMembers, time_json-HasShape) depth 20

-- ── the answer to a line ──
-- A reply of the protocol, of the type that the request has, or an error.
abbrev pub IsReply : Bytes → Json → Type 0
IsReply type j = (k : Kind) × HasShape (shape_of k) j × ((k ≡ error) ⊎ (name_of k ≡ type))

abbrev IsAnswer : Bytes → Option Json → Type 0
IsAnswer type none = Unit
IsAnswer type (some j) = IsReply type j

-- The type of a request; empty where the line is no object.
abbrev pub request_type : Option Json → Bytes
request_type (some (obj ms)) = json_str ms (codes "type")
request_type _ = []

abbrev pub env_on : (Bytes → Option Json) → (Json → Bytes) → Tables → ℤ → Env
env_on parse write t retain_days = record {
  parse = parse;
  write = write;
  queries = queries t;
  retain_days = retain_days;
}

same_type : (type word : Bytes) → bytes_eq type word ≡ true → word ≡ type
same_type type word e = sym ((bytes_eq_iff type word).0 e)

problem-IsAnswer :
    (type : Bytes) (id : Option Bytes) (code message : Bytes)
    → IsAnswer type (problem id code message)
problem-IsAnswer type id code message = (error, error-HasShape id code message, inl refl)

module _ (parse : Bytes → Option Json) (write : Json → Bytes) (t : Tables) (retain_days : ℤ) where
  samples-IsAnswer :
      (now : ℕ) (type : Bytes) (id : Option Bytes) (ms : Members) (ch : Option Bytes)
      → codes "samples" ≡ type
      → IsAnswer type (samples_answer (env_on parse write t retain_days) now id ms ch)
  samples-IsAnswer now type id ms none e = problem-IsAnswer type id _ _
  samples-IsAnswer now type id ms (some ch) e =
      let from = window_from now ms in
      let to = window_to now ms in
      if-elim (IsAnswer type) (ltb_ℤ to from || ltb_ℤ (pos max_range) (to -ℤ from)) _ _
        (λ _. problem-IsAnswer type id _ _)
        (λ _. (Kind.samples, samples-HasShape id t ch from to, inr e))

  object-IsAnswer :
      (now clients : ℕ) (ms : Members)
      → IsAnswer
          (json_str ms (codes "type"))
          (object_answer (env_on parse write t retain_days) now clients ms)
  unfolding object_answer
  object-IsAnswer now clients ms =
      let type = json_str ms (codes "type") in
      let id = request_id ms in
      let P = IsAnswer type in
      if-elim P (bytes_eq type (codes "hello")) _ _
        (λ e.
          (hello, hello-HasShape id (pos proto_v) (pos now) retain_days, inr (same_type type _ e)))
        (λ _.
          if-elim P (bytes_eq type (codes "channels")) _ _
            (λ e. (Kind.channels, channels-HasShape id t now, inr (same_type type _ e)))
            (λ _.
              if-elim P (bytes_eq type (codes "samples")) _ _
                (λ e. samples-IsAnswer now type id ms (channel_arg ms) (same_type type _ e))
                (λ _.
                  if-elim P (bytes_eq type (codes "stats")) _ _
                    (λ e. (Kind.stats, stats-HasShape id t clients, inr (same_type type _ e)))
                    (λ _. problem-IsAnswer type id _ _))))

  doc-IsAnswer :
      (now clients : ℕ) (doc : Option Json)
      → IsAnswer (request_type doc) (doc_answer (env_on parse write t retain_days) now clients doc)
  doc-IsAnswer now clients (some (obj ms)) = object-IsAnswer now clients ms
  doc-IsAnswer now clients _ = problem-IsAnswer [] none _ _

  -- What the relay puts behind the output for a line, on the tables `t`, is one document of the
  -- protocol with its newline: every member of its kind is there with a value of its type, and the
  -- kind is that of the request, or `error`.
  pub handle_line-IsReply :
      (now clients : ℕ) (c : Conn) (line : Bytes) {d : Conn}
      → handle_line (env_on parse write t retain_days) now clients c line ≡ some d
      → (j : Json) × (d.out ≡ c.out ++ (write j ++ b'\n' ∷ []))
        × IsReply (request_type (parse (c_str line))) j
  handle_line-IsReply now clients c line e =
      let (j, a, p) = line-answer (env_on parse write t retain_days) now clients c line e in
      (
        j,
        p,
        subst (IsAnswer (request_type (parse (c_str line)))) a
            (doc-IsAnswer now clients (parse (c_str line))),
      )
