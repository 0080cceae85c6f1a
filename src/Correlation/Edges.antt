-- ===== src/Correlation/Edges.antt =====
-- The edges of the graph are one for each pair of ends and relation.
use asber.Base.{
  Bool, List, Option, [], any, arith, false, find, none, refl, some, text_eq_comm, text_eq_self,
  true, ◌++◌, ◌∙◌, ◌∷◌, ◌≡◌, Bool-cases, any-append, inl, inr,
}
use asber.Correlation.Links.{cut_evidence, existing_or_new, is_same_edge, EntityLink, link}

-- The edges after these calls of `link`, in order.
abbrev pub link_all : List EntityLink → List EntityLink → List EntityLink
link_all [] links = links
link_all (new ∷ more) links = link_all more (link new links).1

abbrev pub AreDistinct : List EntityLink → Type 0
AreDistinct [] = Unit {0}
AreDistinct (l ∷ links) = (any (is_same_edge l) links ≡ false) × AreDistinct links

is_same_edge_comm : (k l : EntityLink) → is_same_edge k l ≡ is_same_edge l k
is_same_edge_comm k l =
    rw
      (
        text_eq_comm k.subject_type l.subject_type,
        text_eq_comm k.subject_id l.subject_id,
        text_eq_comm k.object_type l.object_type,
        text_eq_comm k.object_id l.object_id,
        text_eq_comm k.relation l.relation,
      )
      refl

is_same_edge_self : (k : EntityLink) → is_same_edge k k ≡ true
is_same_edge_self k =
    rw
      (
        text_eq_self k.subject_type,
        text_eq_self k.subject_id,
        text_eq_self k.object_type,
        text_eq_self k.object_id,
        text_eq_self k.relation,
      )
      refl

any-last :
    (p : EntityLink → Bool) (links : List EntityLink) (edge : EntityLink)
    → any p links ≡ false
    → any p (links ++ edge ∷ []) ≡ p edge
any-last p [] edge h = ground arith
any-last p (l ∷ links) edge h = ground (arith, any-last p links edge)

append-AreDistinct :
    (links : List EntityLink) (edge : EntityLink)
    → AreDistinct links
    → any (is_same_edge edge) links ≡ false
    → AreDistinct (links ++ edge ∷ [])
append-AreDistinct [] edge h k = (refl, tt)
append-AreDistinct (l ∷ links) edge h k = (
  any-last (is_same_edge l) links edge h.0 ∙ is_same_edge_comm l edge ∙ ground arith,
  append-AreDistinct links edge h.1 (ground arith),
)

find-none :
    (p : EntityLink → Bool) (links : List EntityLink) → find p links ≡ none → any p links ≡ false
find-none p [] h = refl
find-none p (l ∷ links) h = ground (arith, find-none p links)

link-AreDistinct :
    (new : EntityLink) (links : List EntityLink)
    → AreDistinct links
    → AreDistinct (link new links).1
unfolding link
link-AreDistinct new links h = go (find (is_same_edge edge) links) refl
  where
    edge : EntityLink
    edge = record new { evidence = cut_evidence new.evidence }

    go :
        (o : Option EntityLink)
        → find (is_same_edge edge) links ≡ o
        → AreDistinct (existing_or_new edge links o).1
    go none e = append-AreDistinct links edge h (find-none (is_same_edge edge) links e)
    go (some l) e = h

-- From edges no two of which have the same ends and relation, any sequence of calls of `link`
-- leads to such edges.
pub link_all_distinct :
    (calls links : List EntityLink) → AreDistinct links → AreDistinct (link_all calls links)
link_all_distinct [] links h = h
link_all_distinct (new ∷ more) links h =
    link_all_distinct more (link new links).1 (link-AreDistinct new links h)

any-find :
    (p : EntityLink → Bool) (links : List EntityLink)
    → any p links ≡ true
    → (l : EntityLink) × (find p links ≡ some l)
any-find p [] h = ground arith
any-find p (l ∷ links) h = elim (Bool-cases (p l)) [
  | inl e ↦ (l, rw e refl)
  | inr e ↦ let (m, q) = any-find p links (ground arith) in (m, rw e q)
]

found-any :
    (p : EntityLink → Bool) (links : List EntityLink) (found : EntityLink)
    → find p links ≡ some found
    → any p links ≡ true
found-any p [] found h = ground arith
found-any p (l ∷ links) found h = ground (arith, found-any p links found)

link-keeps :
    (p : EntityLink → Bool) (new : EntityLink) (links : List EntityLink)
    → any p links ≡ true
    → any p (link new links).1 ≡ true
unfolding link
link-keeps p new links h = go (find (is_same_edge edge) links)
  where
    edge : EntityLink
    edge = record new { evidence = cut_evidence new.evidence }

    go : (o : Option EntityLink) → any p (existing_or_new edge links o).1 ≡ true
    go none = any-append p links (edge ∷ []) h
    go (some l) = h

pub link_all-keeps :
    (p : EntityLink → Bool) (more links : List EntityLink)
    → any p links ≡ true
    → any p (link_all more links) ≡ true
link_all-keeps p [] links h = h
link_all-keeps p (new ∷ more) links h =
    link_all-keeps p more (link new links).1 (link-keeps p new links h)

pub link-has :
    (new : EntityLink) (links : List EntityLink) → any (is_same_edge new) (link new links).1 ≡ true
unfolding link
link-has new links = go (find (is_same_edge edge) links) refl
  where
    edge : EntityLink
    edge = record new { evidence = cut_evidence new.evidence }

    go :
        (o : Option EntityLink)
        → find (is_same_edge new) links ≡ o
        → any (is_same_edge new) (existing_or_new edge links o).1 ≡ true
    go none e =
        any-last (is_same_edge new) links edge (find-none (is_same_edge new) links e)
        ∙ is_same_edge_self new
    go (some l) e = found-any (is_same_edge new) links l e

link-found :
    (new : EntityLink) (links : List EntityLink)
    → any (is_same_edge new) links ≡ true
    → ((link new links).0.1 ≡ false) × ((link new links).1 ≡ links)
unfolding link
link-found new links h = rw (any-find (is_same_edge new) links h).1 (refl, refl)

-- Whatever calls of `link` come in between, a call made again reports no new edge and changes
-- nothing.
pub link_again_adds_nothing :
    (new : EntityLink) (more links : List EntityLink)
    → ((link new (link_all more (link new links).1)).0.1 ≡ false)
      × ((link new (link_all more (link new links).1)).1 ≡ link_all more (link new links).1)
link_again_adds_nothing new more links =
    link-found new (link_all more (link new links).1)
      (link_all-keeps (is_same_edge new) more (link new links).1 (link-has new links))

-- From edges no two of which have the same ends and relation, any sequence of calls of `link`
-- leads to such edges; and whatever calls come in between, a call made again reports no new edge
-- and changes nothing.
pub links_form_a_set :
    (new : EntityLink) (more links : List EntityLink)
    → AreDistinct links
    → let made = link_all (new ∷ more) links in
      AreDistinct made × ((link new made).0.1 ≡ false) × ((link new made).1 ≡ made)
links_form_a_set new more links h =
    let again = link_again_adds_nothing new more links in
    (link_all_distinct (new ∷ more) links h, again.0, again.1)
