-- ===== src/View/Filter/Query.antt =====
-- internal/view/filter.go: FilterQuery and ParseFilterQuery. The package net/url is a parameter: `encode` of the
-- values that are set, and `parse`.
use agentboard.Prelude.{
  ◌≡◌, refl, ap, ◌∙◌, Bool, true, false, not, ◌&&◌, ◌||◌, Option, none, some, [], ◌∷◌, arith, ◌==◌,
  if◌then◌else◌, is_empty, Str, runes, str_eq, Table, lookup, insert, lookup-insert,
}
use agentboard.Model.Status
use agentboard.Model.Status.{Status}
use agentboard.Model.Kind
use agentboard.Model.Kind.{Kind}
use agentboard.Model.Priority
use agentboard.Model.Priority.{Priority}
use agentboard.View.Filter.{Filter, no_filter}

-- A url.Values of which each key has one value.
pub record UrlCodec : Type 0 where
  pub encode : Table Str → Str
  pub parse : Str → Option (Table Str)

unfoldable pub set : Str → Str → Table Str → Table Str
unfolding insert
set k s v = if is_empty s then v else insert k s v

-- The values that FilterQuery sets.
unfoldable pub values_of : Filter → Table Str
unfolding set Status.text Kind.text Priority.text
values_of f = set (runes "priority") (Priority.text f.priority) (
    set (runes "type") (Kind.text f.kind) (
      set (runes "assignee") f.assignee (
        set (runes "status") (Status.text f.status) (
          set (runes "epic") f.epic
            (set (runes "project") f.project (set (runes "q") f.query []))))))

unfoldable pub filter_query : UrlCodec → Filter → Str
unfolding values_of
filter_query url f = url.encode (values_of f)

-- `strings.TrimPrefix(qs, "?")`
abbrev trim_question : Str → Str
trim_question [] = []
trim_question (c ∷ s) = if c == b'?' then s else c ∷ s

abbrev pub or_empty : Option Str → Str
or_empty none = []
or_empty (some s) = s

-- `v.Get(k)`
unfoldable pub get : Str → Table Str → Str
unfolding lookup
get k v = or_empty (lookup k v)

get-set :
    (k j s : Str) (v : Table Str)
    → get k (set j s v) ≡ (if str_eq j k && not (is_empty s) then s else get k v)
unfolding get set
get-set k j s v = by_text s (lookup-insert j k s v)
  where
    by_text :
        (s : Str)
        → lookup k (insert j s v) ≡ (if str_eq j k then some s else lookup k v)
        → get k (set j s v) ≡ (if str_eq j k && not (is_empty s) then s else get k v)
    by_text [] h = ground arith
    by_text (c ∷ s) h = ap or_empty h ∙ or_empty_if (str_eq j k)
      where
        or_empty_if :
            (b : Bool)
            → or_empty (if b then some (c ∷ s) else lookup k v)
              ≡ (if b && true then c ∷ s else or_empty (lookup k v))
        or_empty_if true = refl
        or_empty_if false = refl

-- An invalid text counts as none.
unfoldable pub status_or_none : Status → Status
unfolding Status.valid
status_or_none s = if Status.valid s then s else Status.unknown []

unfoldable pub kind_or_none : Kind → Kind
unfolding Kind.valid
kind_or_none k = if Kind.valid k then k else Kind.unknown []

unfoldable pub priority_or_none : Priority → Priority
unfolding Priority.valid
priority_or_none p = if Priority.valid p then p else Priority.unknown []

unfoldable pub filter_of : Option (Table Str) → Filter
unfolding Status.of_text Kind.of_text Priority.of_text get status_or_none kind_or_none
    priority_or_none
filter_of none = no_filter
filter_of (some v) = record {
  query = get (runes "q") v;
  project = get (runes "project") v;
  epic = get (runes "epic") v;
  status = status_or_none (Status.of_text (get (runes "status") v));
  assignee = get (runes "assignee") v;
  kind = kind_or_none (Kind.of_text (get (runes "type") v));
  priority = priority_or_none (Priority.of_text (get (runes "priority") v));
}

unfoldable pub parse_filter_query : UrlCodec → Str → Filter
unfolding filter_of
parse_filter_query url qs = filter_of (url.parse (trim_question qs))

set_alone : (k s : Str) → (if not (is_empty s) then s else get k []) ≡ s
unfolding get lookup
set_alone k [] = refl
set_alone k (c ∷ s) = refl

-- The values that FilterQuery sets are the filter's.
record HasValues (f : Filter) (v : Table Str) : Type 0 where
  its_q : get (runes "q") v ≡ f.query
  its_project : get (runes "project") v ≡ f.project
  its_epic : get (runes "epic") v ≡ f.epic
  its_status : get (runes "status") v ≡ Status.text f.status
  its_assignee : get (runes "assignee") v ≡ f.assignee
  its_kind : get (runes "type") v ≡ Kind.text f.kind
  its_priority : get (runes "priority") v ≡ Priority.text f.priority

values_of-HasValues : (f : Filter) → HasValues f (values_of f)
unfolding values_of str_eq
values_of-HasValues f = record {
  its_q = simp get-set (set_alone (runes "q") f.query);
  its_project = simp get-set (set_alone (runes "project") f.project);
  its_epic = simp get-set (set_alone (runes "epic") f.epic);
  its_status = simp get-set (set_alone (runes "status") (Status.text f.status));
  its_assignee = simp get-set (set_alone (runes "assignee") f.assignee);
  its_kind = simp get-set (set_alone (runes "type") (Kind.text f.kind));
  its_priority = simp get-set (set_alone (runes "priority") (Priority.text f.priority));
}

-- What net/url documents of values that are set once each: they are read back from their encoding, which escapes
-- a question mark.
pub record IsUrlCodecFor (url : UrlCodec) (v : Table Str) : Type 0 where
  pub back : Table Str
  pub parses : url.parse (url.encode v) ≡ some back
  pub same : (k : Str) → get k back ≡ get k v
  pub escapes : trim_question (url.encode v) ≡ url.encode v

-- A filter whose status, type and priority are known or not set.
unfoldable pub is_settable : Filter → Bool
unfolding Status.valid Status.eq Kind.valid Kind.eq Priority.valid Priority.eq
is_settable f =
    (Status.valid f.status || Status.eq f.status (Status.unknown []))
    && (Kind.valid f.kind || Kind.eq f.kind (Kind.unknown []))
    && (Priority.valid f.priority || Priority.eq f.priority (Priority.unknown []))

status_back :
    (s : Status)
    → (Status.valid s || Status.eq s (Status.unknown [])) ≡ true
    → status_or_none (Status.of_text (Status.text s)) ≡ s
unfolding status_or_none Status.of_text Status.text Status.valid Status.eq str_eq
status_back Status.todo h = refl
status_back Status.in_progress h = refl
status_back Status.review h = refl
status_back Status.done h = refl
status_back Status.blocked h = refl
status_back (Status.unknown []) h = refl
status_back (Status.unknown (c ∷ s)) h = cc

kind_back :
    (k : Kind)
    → (Kind.valid k || Kind.eq k (Kind.unknown [])) ≡ true
    → kind_or_none (Kind.of_text (Kind.text k)) ≡ k
unfolding kind_or_none Kind.of_text Kind.text Kind.valid Kind.eq str_eq
kind_back Kind.epic h = refl
kind_back Kind.story h = refl
kind_back Kind.task h = refl
kind_back (Kind.unknown []) h = refl
kind_back (Kind.unknown (c ∷ s)) h = cc

priority_back :
    (p : Priority)
    → (Priority.valid p || Priority.eq p (Priority.unknown [])) ≡ true
    → priority_or_none (Priority.of_text (Priority.text p)) ≡ p
unfolding priority_or_none Priority.of_text Priority.text Priority.valid Priority.eq str_eq
priority_back Priority.low h = refl
priority_back Priority.medium h = refl
priority_back Priority.high h = refl
priority_back Priority.urgent h = refl
priority_back (Priority.unknown []) h = refl
priority_back (Priority.unknown (c ∷ s)) h = cc

-- A filter survives the address bar: encoded as a query and parsed, with or without the question mark in front, it
-- is the same filter, if its status, type and priority are known or not set.
pub parse_filter_query-filter_query :
    (url : UrlCodec) (f : Filter)
    → IsUrlCodecFor url (values_of f)
    → is_settable f ≡ true
    → (parse_filter_query url (filter_query url f) ≡ f)
      × (parse_filter_query url (b'?' ∷ filter_query url f) ≡ f)
unfolding parse_filter_query filter_query filter_of is_settable
parse_filter_query-filter_query url f c h =
    let v = values_of-HasValues f in
    let s = status_back f.status (ground arith) in
    let k = kind_back f.kind (ground arith) in
    let p = priority_back f.priority (ground arith) in
    let read : filter_of (url.parse (url.encode (values_of f))) ≡ f =
      rw
        (
          c.parses,
          c.same (runes "q"),
          c.same (runes "project"),
          c.same (runes "epic"),
          c.same (runes "status"),
          c.same (runes "assignee"),
          c.same (runes "type"),
          c.same (runes "priority"),
          v.its_q,
          v.its_project,
          v.its_epic,
          v.its_status,
          v.its_assignee,
          v.its_kind,
          v.its_priority,
          s,
          k,
          p,
        )
        refl in
    (rw c.escapes read, read)
