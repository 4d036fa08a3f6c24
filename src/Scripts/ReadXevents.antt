-- ===== src/Scripts/ReadXevents.antt =====
-- scripts/read_xevents.py and scripts/read_xel_files.py: an event of the XML as a record. The XML is
-- given parsed, each element by its attributes.
pub mod Agree
use sqlum_ai.Common.{Option, none, some, List, [], ◌∷◌, ◌||◌, Bool, if◌then◌else◌}
use mathlib.Core.Option
use sqlum_ai.Common.Text.{Text, codes, text_eq}
use sqlum_ai.Common.Dict
use sqlum_ai.Common.Dict.{Dict}
use sqlum_ai.Common.Integers.{ℤ, int_of}

-- The attributes `name` and `value` of an element.
abbrev pub Named : Type 0
Named = Option Text × Option Text

-- An `event` element: two attributes, and its `action` and `data` elements.
pub record EventElement : Type 0 where
  pub name : Option Text
  pub timestamp : Option Text
  pub actions : List Named
  pub items : List Named

-- What the loop over the `data` elements gathers.
pub record Gathered : Type 0 where
  pub statement : Option Text
  pub duration : Option ℤ
  pub row_count : Option ℤ
  pub cpu_time : Option ℤ
  pub error : Option ℤ

pub record XeRecord : Type 0 where
  pub timestamp : Option Text
  pub event : Option Text
  pub database : Option Text
  pub user : Option Text
  pub client_app : Option Text
  pub client_host : Option Text
  pub gathered : Gathered

-- `action[act_name] = val`; an element without a name goes under a key that is not read
unfoldable pub gather_actions : Dict (Option Text) → List Named → Dict (Option Text)
unfolding Dict.put
gather_actions d [] = d
gather_actions d ((none, val) ∷ rest) = gather_actions d rest
gather_actions d ((some name, val) ∷ rest) = gather_actions (Dict.put name val d) rest

-- `action.get(key)`
abbrev pub action_at : Text → Dict (Option Text) → Option Text
action_at key d = elim (Dict.get key d) [ none ↦ none | some val ↦ val ]

-- `int(val)`; `none` is the exception of a missing value or of a text that is no number
abbrev pub int_at : Option Text → Option ℤ
int_at none = none
int_at (some s) = int_of s

abbrev pub is_statement : Text → Bool
is_statement dn = text_eq dn (codes "statement") || text_eq dn (codes "batch_text")

-- One round of the loop over the `data` elements.
unfoldable pub gather_item : Named → Gathered → Option Gathered
unfolding text_eq int_of
gather_item (none, val) g = some g
gather_item (some dn, val) g =
    if is_statement dn
    then some (record g { statement = val })
    else if text_eq dn (codes "duration")
    then Option.map (λ n. record g { duration = some n }) (int_at val)
    else if text_eq dn (codes "row_count")
    then Option.map (λ n. record g { row_count = some n }) (int_at val)
    else if text_eq dn (codes "cpu_time")
    then Option.map (λ n. record g { cpu_time = some n }) (int_at val)
    else if text_eq dn (codes "error")
    then Option.map (λ n. record g { error = some n }) (int_at val)
    else some g

unfoldable pub gather_items : List Named → Gathered → Option Gathered
unfolding gather_item
gather_items [] g = some g
gather_items (d ∷ ds) g = elim (gather_item d g) [ none ↦ none | some h ↦ gather_items ds h ]

abbrev pub nothing_gathered : Gathered
nothing_gathered = record {
  statement = none;
  duration = none;
  row_count = none;
  cpu_time = none;
  error = none;
}

abbrev pub no_actions : Dict (Option Text)
no_actions =
    (codes "client_app_name", none)
    ∷ (codes "client_hostname", none)
    ∷ (codes "database_name", none)
    ∷ (codes "username", none)
    ∷ []

-- `parse_event_xml`; `none` is the exception
unfoldable pub parse_event_xml : EventElement → Option XeRecord
unfolding gather_actions gather_items Dict.get
parse_event_xml e =
    let action = gather_actions no_actions e.actions in
    Option.map
      (λ g. record {
        timestamp = e.timestamp;
        event = e.name;
        database = action_at (codes "database_name") action;
        user = action_at (codes "username") action;
        client_app = action_at (codes "client_app_name") action;
        client_host = action_at (codes "client_hostname") action;
        gathered = g;
      })
      (gather_items e.items nothing_gathered)

-- The variables of a round of `parse_ring_buffer`: its `action`, and what the `data` elements are read into.
pub record Variables : Type 0 where
  pub action : Dict (Option Text)
  pub statement : Option Text
  pub duration : Option ℤ
  pub row_count : Option ℤ
  pub cpu_time : Option ℤ
  pub error : Option ℤ

abbrev pub new_variables : Variables
new_variables = record {
  action =
      (codes "client_app_name", none)
      ∷ (codes "client_hostname", none)
      ∷ (codes "database_name", none)
      ∷ (codes "username", none)
      ∷ [];
  statement = none;
  duration = none;
  row_count = none;
  cpu_time = none;
  error = none;
}

-- The loop over the `action` elements; `None` is a key that is not read.
unfoldable pub ring_actions : List Named → Variables → Variables
unfolding Dict.put
ring_actions [] v = v
ring_actions ((none, val) ∷ rest) v = ring_actions rest v
ring_actions ((some name, val) ∷ rest) v =
    ring_actions rest (record v { action = Dict.put name val v.action })

-- `int(val)` put into a variable
abbrev pub ring_int : Option Text → (ℤ → Variables) → Option Variables
ring_int none into = none
ring_int (some s) into = elim (int_of s) [ none ↦ none | some n ↦ some (into n) ]

-- The loop over the `data` elements.
unfoldable pub ring_data : List Named → Variables → Option Variables
unfolding text_eq int_of
ring_data [] v = some v
ring_data ((none, val) ∷ rest) v = ring_data rest v
ring_data ((some dn, val) ∷ rest) v =
    let next : Option Variables =
      if text_eq dn (codes "statement") || text_eq dn (codes "batch_text")
      then some (record v { statement = val })
      else if text_eq dn (codes "duration")
      then ring_int val (λ n. record v { duration = some n })
      else if text_eq dn (codes "row_count")
      then ring_int val (λ n. record v { row_count = some n })
      else if text_eq dn (codes "cpu_time")
      then ring_int val (λ n. record v { cpu_time = some n })
      else if text_eq dn (codes "error")
      then ring_int val (λ n. record v { error = some n })
      else some v in
    elim next [ none ↦ none | some w ↦ ring_data rest w ]

-- The dict that a round yields.
abbrev pub yielded : EventElement → Variables → XeRecord
yielded e v = record {
  timestamp = e.timestamp;
  event = e.name;
  database = action_at (codes "database_name") v.action;
  user = action_at (codes "username") v.action;
  client_app = action_at (codes "client_app_name") v.action;
  client_host = action_at (codes "client_hostname") v.action;
  gathered = record {
    statement = v.statement;
    duration = v.duration;
    row_count = v.row_count;
    cpu_time = v.cpu_time;
    error = v.error;
  };
}

-- `list(parse_ring_buffer(xml_text))`: one event that is not read ends it with an exception
unfoldable pub parse_ring_buffer : List EventElement → Option (List XeRecord)
unfolding ring_actions ring_data Dict.get
parse_ring_buffer [] = some []
parse_ring_buffer (e ∷ es) =
    let rest = parse_ring_buffer es in
    elim (ring_data e.items (ring_actions e.actions new_variables)) [
      | none ↦ none
      | some v ↦ elim rest [ none ↦ none | some rs ↦ some (yielded e v ∷ rs) ]
    ]

-- The loop of read_xel_files.py: an event that is not read is passed over.
unfoldable pub read_xel_files : List EventElement → List XeRecord
unfolding parse_event_xml
read_xel_files [] = []
read_xel_files (e ∷ es) =
    let rest = read_xel_files es in elim (parse_event_xml e) [ none ↦ rest | some r ↦ r ∷ rest ]
