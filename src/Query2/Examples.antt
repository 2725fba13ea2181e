-- ===== src/Query2/Examples.antt =====
-- The theorem on the query builder applied to a query with a clause of each form. A handler is a text.
use pgcqrs.Base.{String, pos, ◌≡◌, inl, inr, refl, Option, none, some, List, [], ◌∷◌}
use pgcqrs.Wire.{WireBatchRequest, ok}
use pgcqrs.Query2.{Query, build_batch_request}
use pgcqrs.Query2.Prepared.{Shares, KindShare, IdShare, build_batch_request-Shares}

abbrev clauses : Query String
clauses = record {
  kinds =
      record {
        kind = "k";
        each = some "each";
        matched =
            record { processor = none; subset = none }
            ∷ record { processor = some "matched"; subset = some "x" }
            ∷ [];
      }
      ∷ [];
  ids = record { id = pos 3; on = some "id" } ∷ [];
  after_id = some (pos 1);
}

build_batch_request-Shares_example :
    (request : WireBatchRequest) × (hs : List (Option String)) × (build_batch_request clauses
      ≡ ok (request, hs))
    × Shares (KindShare hs) clauses.kinds request.on_kinds
    × Shares (IdShare hs) clauses.ids request.on_id
    × (request.after_id ≡ clauses.after_id)
build_batch_request-Shares_example =
    build_batch_request-Shares clauses ((inl refl, (inr ("x", refl), tt)), tt)
