-- ===== src/Dfinder/Samples.antt =====
-- A concrete database and JSON coders that know a few values each, for the tests.
use proto.Base.{
  ℕ, ◌==◌, ==_iff, if◌then◌else◌, ◌≡◌, refl, sym, ap, ◌∙◌, Bool, true, false, ◌&&◌, List, [], ◌∷◌,
  String, str_eq, eq_iff, none, Outcome, ok, err, Bool-cases, inl, inr, ok-injective, arith,
}
use mathlib.Core.Path.{subst}
use proto.Base.Json.{json_error, Coder, CoderLaws}
use proto.Dfinder.Protocol.{NodeInfo, RegisterRequest, Serde, SerdeLaws}
use proto.Dfinder.Store.{Row, SqlError, Sqlite}
use proto.Dfinder.Store.Table.{find_row, UniqueRows, stepped, SqliteLaws}

-- The table as a list of rows; a query shows the first row of each key.
abbrev pub without : String → List Row → List Row
without key [] = []
without key (row ∷ rows) =
    let rest = without key rows in if str_eq row.ip key then rest else row ∷ rest

abbrev pub distinct : List Row → List Row
distinct [] = []
distinct (row ∷ rows) = row ∷ without row.ip (distinct rows)

abbrev pub rows_db : Sqlite (List Row)
rows_db = record {
  open_path = λ path. ok [];
  open_in_memory = ok [];
  create_nodes = λ rows. ok rows;
  insert_or_update = λ row rows. ok (row ∷ rows);
  delete_ip = λ key rows. ok (without key rows);
  select_nodes = λ rows. ok (stepped (distinct rows));
}

find_row-without :
    (key ip : String) (rows : List Row)
    → find_row ip (without key rows) ≡ (if str_eq key ip then none else find_row ip rows)
find_row-without key ip [] = ground arith
find_row-without key ip (row ∷ rows) =
    ground (arith, eq_iff row.ip key, eq_iff row.ip ip, eq_iff key ip, find_row-without key ip rows)

find_row-distinct : (ip : String) (rows : List Row) → find_row ip (distinct rows) ≡ find_row ip rows
find_row-distinct ip [] = refl
find_row-distinct ip (row ∷ rows) =
    ground (arith, find_row-without row.ip ip (distinct rows), find_row-distinct ip rows)

UniqueRows-without :
    (key : String) (rows : List Row) → UniqueRows rows → UniqueRows (without key rows)
UniqueRows-without key [] u = tt
UniqueRows-without key (row ∷ rows) u = elim (Bool-cases (str_eq row.ip key)) [
  | inl same ↦ rw same (UniqueRows-without key rows u.1)
  | inr differs ↦
      rw differs
        (ground (arith, find_row-without key row.ip rows, u.0), UniqueRows-without key rows u.1)
]

UniqueRows-distinct : (rows : List Row) → UniqueRows (distinct rows)
UniqueRows-distinct [] = tt
UniqueRows-distinct (row ∷ rows) = (
  ground (arith, find_row-without row.ip row.ip (distinct rows), eq_iff row.ip row.ip),
  UniqueRows-without row.ip (distinct rows) (UniqueRows-distinct rows),
)

stepped-injective : (xs ys : List Row) → stepped xs ≡ stepped ys → xs ≡ ys
stepped-injective [] [] e = refl
stepped-injective [] (y ∷ ys) e = cc
stepped-injective (x ∷ xs) [] e = cc
stepped-injective (x ∷ xs) (y ∷ ys) e = cc (stepped-injective xs ys (ap tail e))
  where
    tail : List (Outcome SqlError Row) → List (Outcome SqlError Row)
    tail [] = []
    tail (z ∷ zs) = zs

pub rows_db_laws : SqliteLaws rows_db
rows_db_laws = record {
  holds = λ rows ip. find_row ip rows;
  created = λ c c' ip e. ap (find_row ip) (sym (ok-injective e));
  inserted = λ row c c' ip e. ap (find_row ip) (sym (ok-injective e));
  deleted = λ key c c' ip e. ap (find_row ip) (sym (ok-injective e)) ∙ find_row-without key ip c;
  selected = λ c rows ip e.
      ap (find_row ip) (sym (stepped-injective (distinct c) rows (ok-injective e)))
      ∙ find_row-distinct ip c;
  unique = λ c rows e.
      subst UniqueRows (stepped-injective (distinct c) rows (ok-injective e))
        (UniqueRows-distinct c);
}

-- A coder that knows one value, which `test` recognises.
abbrev pub one_value : {A B : Type 0} → (test : A → Bool) → A → B → Coder A B
one_value test a b = record {
  encode = λ x. if test x then ok b else err (json_error "unknown value");
  decode = λ y. ok a;
}

one_value_laws :
    {A B : Type 0} (test : A → Bool) (a : A) (b : B)
    → ((x : A) → test x ≡ true → x ≡ a)
    → CoderLaws (one_value test a b)
one_value_laws test a b sound = record {
  decode_encode = λ x y e. elim (Bool-cases (test x)) [
    | inl known ↦ ap ok (sym (sound x known))
    | inr unknown ↦ cc (rw unknown at e)
  ];
}

abbrev pub api : List String
api = "api" ∷ []

abbrev is_api : List String → Bool
is_api (l ∷ []) = str_eq l "api"
is_api _ = false

is_api_sound : (ls : List String) → is_api ls ≡ true → ls ≡ api
is_api_sound [] e = cc
is_api_sound (l ∷ []) e = ap (λ s. s ∷ []) ((eq_iff l "api").0 e)
is_api_sound (l ∷ m ∷ ls) e = cc

-- The node that the tests register.
abbrev pub node : NodeInfo ℕ
node = record { ip = "10.0.0.1"; port = 9001; labels = api; extra = 0 }

abbrev is_request : RegisterRequest ℕ → Bool
is_request r = r.port == 9001 && (is_api r.labels && r.extra == 0)

abbrev request : RegisterRequest ℕ
request = record { port = 9001; labels = api; extra = 0 }

is_request_sound : (r : RegisterRequest ℕ) → is_request r ≡ true → r ≡ request
is_request_sound r e =
    let port : r.port ≡ 9001 = ground (arith, e) in
    let labels : is_api r.labels ≡ true = ground (arith, e) in
    let extra : r.extra ≡ 0 = ground (arith, e) in
    λ i. record { port = port i; labels = is_api_sound r.labels labels i; extra = extra i }

abbrev is_node : NodeInfo ℕ → Bool
is_node n = str_eq n.ip "10.0.0.1" && (n.port == 9001 && (is_api n.labels && n.extra == 0))

is_node_sound : (n : NodeInfo ℕ) → is_node n ≡ true → n ≡ node
is_node_sound n e =
    let ip : n.ip ≡ "10.0.0.1" = (eq_iff n.ip "10.0.0.1").0 (ground (arith, e)) in
    let port : n.port ≡ 9001 = ground (arith, e) in
    let labels : is_api n.labels ≡ true = ground (arith, e) in
    let extra : n.extra ≡ 0 = ground (arith, e) in
    λ i. record {
      ip = ip i;
      port = port i;
      labels = is_api_sound n.labels labels i;
      extra = extra i;
    }

abbrev only_node : List (NodeInfo ℕ) → Bool
only_node (n ∷ []) = is_node n
only_node _ = false

only_node_sound : (ns : List (NodeInfo ℕ)) → only_node ns ≡ true → ns ≡ node ∷ []
only_node_sound [] e = cc
only_node_sound (n ∷ []) e = ap (λ (m : NodeInfo ℕ). m ∷ []) (is_node_sound n e)
only_node_sound (n ∷ m ∷ ns) e = cc

abbrev pub json_samples : Serde ℕ
json_samples = record {
  register_request = one_value is_request request (1 ∷ []);
  query_request = one_value (λ q. is_api q.labels) (record { labels = api }) (2 ∷ []);
  query_result = one_value (λ r. only_node r.nodes) (record { nodes = node ∷ [] }) (3 ∷ []);
  error_body =
      one_value (λ b. str_eq b.message "register requires >= 1 label")
        (record { message = "register requires >= 1 label" }) (4 ∷ []);
  labels = one_value is_api api "[\"api\"]";
  extra = one_value (λ n. n == 0) 0 "0";
}

pub json_samples_laws : SerdeLaws json_samples
json_samples_laws = record {
  register_request = one_value_laws is_request request (1 ∷ []) is_request_sound;
  query_request = one_value_laws _ _ _ (λ q e i. record { labels = is_api_sound q.labels e i });
  query_result = one_value_laws _ _ _ (λ r e i. record { nodes = only_node_sound r.nodes e i });
  error_body =
      one_value_laws _ _ _
        (λ b e i. record { message = (eq_iff b.message "register requires >= 1 label").0 e i });
  labels = one_value_laws is_api api _ is_api_sound;
  extra = one_value_laws _ _ _ (λ n e. (==_iff n 0).0 e);
  port_fits = λ bytes req e. rw (← ok-injective e) (omega arith);
}
