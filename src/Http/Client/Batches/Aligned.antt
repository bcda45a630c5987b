-- ===== src/Http/Client/Batches/Aligned.antt =====
-- Which request of a batch gets which response: go/jsonrpc3/http_client.go.
use jsonrpc.Base.{
  Bool, true, false, none, some, List, [], ◌∷◌, ◌++◌, map, Str, str_eq, str_eq_refl, All,
  if◌then◌else◌, ◌≡◌, refl, ◌∙◌, ap,
}
use jsonrpc.Base.Dict.{Dict, lookup, insert, lookup-insert}
use jsonrpc.Any.{Any, is_nil}
use jsonrpc.Message.{Request, Response, Batch}
use jsonrpc.Http.Client.Batches.{response_map, align}

module _ (show : Any → Str) where
  -- A response whose ID prints as another text.
  abbrev pub Differs : Str → Response → Type 0
  Differs t r = str_eq (show r.id) t ≡ false

  lookup-insert_unless :
      (b : Bool) (t : Str) (r : Response) (d : Dict Response)
      → Differs t r
      → lookup t (if b then d else insert (show r.id) r d) ≡ lookup t d
  lookup-insert_unless true t r d h = refl
  lookup-insert_unless false t r d h = lookup-insert (show r.id) t r d ∙ rw h refl

  lookup-response_map :
      (t : Str) (rs : List Response) (d : Dict Response)
      → All (Differs t) rs
      → lookup t (response_map show rs d) ≡ lookup t d
  unfolding response_map
  lookup-response_map t [] d h = refl
  lookup-response_map t (r ∷ rs) d (h, hs) =
      lookup-response_map t rs (if is_nil r.id then d else insert (show r.id) r d) hs
      ∙ lookup-insert_unless (is_nil r.id) t r d h

  lookup-response_map_found :
      (before after : List Response) (r : Response) (d : Dict Response)
      → is_nil r.id ≡ false
      → All (Differs (show r.id)) after
      → lookup (show r.id) (response_map show (before ++ r ∷ after) d) ≡ some r
  unfolding response_map
  lookup-response_map_found [] after r d h hs =
      lookup-response_map (show r.id) after (if is_nil r.id then d else insert (show r.id) r d) hs
      ∙ (rw h (lookup-insert (show r.id) (show r.id) r d ∙ rw (str_eq_refl (show r.id)) refl))
  lookup-response_map_found (x ∷ before) after r d h hs =
      lookup-response_map_found before after r (if is_nil x.id then d else insert (show x.id) x d) h
        hs

  map-append :
      {A B : Type 0} (f : A → B) (xs : List A) (x : A) (ys : List A)
      → map f (xs ++ x ∷ ys) ≡ map f xs ++ f x ∷ map f ys
  map-append f [] x ys = refl
  map-append f (z ∷ xs) x ys = ap (λ t. f z ∷ t) (map-append f xs x ys)

  -- A request of a batch gets the response whose ID prints as its own, wherever the two stand in the
  -- batch and among the responses, if no later response has an ID of the same text. The other
  -- requests get what they get in a batch without it.
  pub align_lem :
      (qs qs' : Batch) (q : Request) (before after : List Response) (r : Response)
      → is_nil q.id ≡ false
      → is_nil r.id ≡ false
      → show q.id ≡ show r.id
      → All (Differs (show r.id)) after
      → let rs = before ++ r ∷ after in
        align show (qs ++ q ∷ qs') rs ≡ align show qs rs ++ some r ∷ align show qs' rs
  unfolding align
  align_lem qs qs' q before after r hq hr same hs =
      map-append
        (λ x.
          if is_nil x.id
          then none
          else lookup (show x.id) (response_map show (before ++ r ∷ after) []))
        qs q qs'
      ∙ rw (hq, same, lookup-response_map_found before after r [] hr hs) refl
