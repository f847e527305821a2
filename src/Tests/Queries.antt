-- ===== src/Tests/Queries.antt =====
-- Tests of indexer/ and search/, with tries that are lists and patterns that match themselves.
use goiardi.Base.{
  ◌≡◌, ◌≢◌, refl, true, false, ◌&&◌, ◌||◌, Option, none, some, List, [], ◌∷◌, ◌==◌, nat_eq, list_eq,
  list_beq, IsNodup, contains, arith,
}
use goiardi.Base.Text.{Text, codes, join, text_ltb}
use goiardi.Base.Dict.{Dict, lookup, insert, keys}
use goiardi.Base.Int.{int_ltb}
use goiardi.Base.Sort.{sort}
use goiardi.Objects.{Result, ok, err, errorf}
use goiardi.Util.Indexify.{text, texts, indexify}
use goiardi.Indexer.Document.{Backend, Indexable, Doc, examine, range_search, some_child}
use goiardi.Indexer.{FileIndex, search, save_item, make_default_collections, unescape}
use goiardi.Indexer.Collect.{keep}
use goiardi.Indexer.Reach.{made}
use goiardi.Indexer.Laws.{CanIndex, found_then, search-save_item}
use goiardi.Indexer.Ranges.{is_asked, range_search_lem}
use goiardi.Search.{
  Op, op_of, make_search_term, basic, bin_and, bin_or, unary_req, not_an_op, BasicQuery,
}
use goiardi.Search.Execute.{execute, starved, returned, merge_results}
use goiardi.Search.Termination.{execute-Ends}
use goiardi.Search.Groups.{merge_results-required}
use goiardi.Search.Meaning.{meaning, hit, IsSearchable}
use goiardi.Search.Laws.{execute_lem, execute-and-or, start_mark, end_mark}

abbrev pub first_of : List Text → Result Text
first_of [] = err (errorf (codes "EOF"))
first_of (t ∷ p) = ok t

pub lists_decompress :
    (t p : List Text)
    → ◌≡◌ {A = Option (List Text)} (some t) (some p)
    → ◌≡◌ {A = Result (List Text)} (ok p) (ok t)
lists_decompress t p h = ground (arith, h)

pub lists_accept :
    (l t : List Text) (s : Text)
    → ◌≡◌ {A = Option (List Text)} (some l) (some t)
    → contains t s ≡ contains l s
lists_accept l t s h = ground (arith, h)

abbrev pub lists : Backend
lists = record {
  Trie = List Text;
  Packed = List Text;
  create = λ l. some l;
  accepts = λ t s. contains t s;
  child_keys = λ t k. none;
  compress_trie = λ t. some t;
  decompress_trie = λ p. ok p;
  compress_text = λ t. some (t ∷ []);
  decompress_text = first_of;
  compile = λ re. ok (λ s. s == re);
  decompress_trie-compress_trie = lists_decompress;
  accepts-create = λ l t s h a b. lists_accept l t s h;
}

abbrev web : Indexable
web = record {
  doc_id = codes "web";
  index = codes "role";
  flatten =
      (codes "name", text (codes "web"))
      ∷ (codes "recipe", texts (codes "b" ∷ codes "a" ∷ codes "b" ∷ []))
      ∷ [];
}

abbrev web_lines : List Text
web_lines = codes "name:web" ∷ codes "recipe:a" ∷ codes "recipe:b" ∷ []

web-CanIndex : CanIndex lists 100 web web_lines
unfolding indexify sort text_ltb list_eq list_beq join int_ltb
web-CanIndex = record {
  trie = web_lines;
  packed = web_lines;
  indexed = refl;
  created = refl;
  compressed = refl;
  ascii = refl;
}

search-save_item_example :
    (i' : FileIndex lists) × (found' : Dict Text (Doc lists)) × (doc : Doc lists) × (save_item lists
        100
        (make_default_collections lists)
        web
      ≡ some i')
    × (search lists i' (codes "role") (codes "recipe:a") false ≡ some (ok found'))
    × ((id : Text)
        → lookup id found' ≡ found_then lists [] web web_lines (codes "recipe:a") false doc id)
    × ((idx : Text)
        → (codes "role" == idx) ≡ false
        → search lists i' idx (codes "recipe:a") false
          ≡ search lists (make_default_collections lists) idx (codes "recipe:a") false)
unfolding search make_default_collections insert lookup list_eq list_beq
search-save_item_example =
    search-save_item lists 100 (make_default_collections lists) web web_lines (codes "recipe:a")
      false [] made web-CanIndex refl refl refl

-- Tries that give the values of every field.
abbrev keyed : Backend
keyed = record lists { child_keys = λ t k. some t }

abbrev two_values : Doc keyed
two_values = record { trie = some (codes "c" ∷ codes "e" ∷ []); doc_text = none }

unwild : ((codes "a" == codes "*") && (codes "c" == codes "*")) ≡ false
unfolding list_eq list_beq
unwild = refl

range_search_lem_example :
    range_search keyed (codes "f") (codes "a") (codes "c") true true two_values
    ≡ some (
        ok (
          some_child keyed
            (some (codes "c" ∷ codes "e" ∷ []))
            (is_asked true true (codes "a") (codes "c"))))
range_search_lem_example =
    range_search_lem keyed two_values (codes "c" ∷ codes "e" ∷ []) (codes "f") (codes "a")
      (codes "c") true true refl unwild

abbrev doc_of : List Text → Doc lists
doc_of lines = record { trie = some lines; doc_text = some [] }

abbrev roles : Dict Text (Doc lists)
roles =
    (codes "web", doc_of (codes "name:web" ∷ codes "run:a" ∷ []))
    ∷ (codes "db", doc_of (codes "name:db" ∷ codes "run:b" ∷ []))
    ∷ []

abbrev two_roles : FileIndex lists
two_roles = record { idxmap = (codes "role", roles) ∷ []; updated = true }

roles-there : lookup (codes "role") two_roles.idxmap ≡ some roles
unfolding lookup list_eq list_beq
roles-there = refl

roles-once : IsNodup (keys roles)
unfolding list_eq list_beq
roles-once = (refl, (refl, tt))

abbrev query : Text → Text → Op → BasicQuery
query field term o = record {
  field = field;
  term = record { term = term; mod_op = not_an_op; fuzzboost = not_an_op; fuzzparam = [] };
  op = o;
  complete = true;
}

abbrev by_name : BasicQuery
by_name = query (codes "name") (codes "web") bin_and

abbrev by_run : BasicQuery
by_run = query (codes "run") (codes "b") bin_or

by_name-IsSearchable : IsSearchable lists roles (basic by_name)
unfolding examine unescape make_search_term list_eq list_beq
by_name-IsSearchable = (refl, record { not_all = refl; tested = (refl, (refl, tt)) })

by_run-IsSearchable : IsSearchable lists roles (basic by_run)
unfolding examine unescape make_search_term list_eq list_beq
by_run-IsSearchable = (refl, record { not_all = refl; tested = (refl, (refl, tt)) })

execute_lem_example :
    (res : Dict Text (Doc lists)) × (execute lists two_roles
        (codes "role")
        (basic by_name ∷ basic by_run ∷ [])
      ≡ returned (ok res))
    × ((id : Text)
        → lookup id res
          ≡ keep
              (λ d. meaning lists bin_or none (basic by_name ∷ basic by_run ∷ []) false d)
              (lookup id roles))
unfolding op_of
execute_lem_example =
    execute_lem lists two_roles (codes "role") roles roles-there roles-once
      (basic by_name ∷ basic by_run ∷ [])
      (by_name-IsSearchable, refl, (by_run-IsSearchable, refl, tt))

execute-and-or_example :
    (res : Dict Text (Doc lists)) × (execute lists two_roles
        (codes "role")
        (basic by_name ∷ start_mark ∷ basic by_run ∷ basic by_run ∷ end_mark ∷ [])
      ≡ returned (ok res))
    × ((id : Text)
        → lookup id res
          ≡ keep
              (λ d.
                (hit lists none (basic by_name) d && hit lists (some start_mark) (basic by_run) d)
                || hit lists (some (basic by_run)) (basic by_run) d)
              (lookup id roles))
execute-and-or_example =
    execute-and-or lists two_roles (codes "role") roles roles-there roles-once by_name by_run by_run
      by_name-IsSearchable by_run-IsSearchable by_run-IsSearchable refl refl refl

execute-Ends_example :
    execute lists two_roles (codes "role") (basic by_name ∷ start_mark ∷ end_mark ∷ []) ≢ starved
execute-Ends_example =
    execute-Ends lists two_roles (codes "role") (basic by_name ∷ start_mark ∷ end_mark ∷ [])

merge_results-required_example :
    merge_results ((unary_req, roles) ∷ (not_an_op, roles) ∷ []) ≡ merge_results {D = Doc lists} []
merge_results-required_example =
    merge_results-required [] ((not_an_op, roles) ∷ []) unary_req roles tt refl
