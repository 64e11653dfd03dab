-- ===== src/Model/Frontmatter/RoundTrip.antt =====
-- Reading back what was written.
use ideate.Common.{
  ap, not, ◌==◌, if◌then◌else◌, ℕ, false, ◌+◌, ◌≡◌, ◌≢◌, refl, Option, none, some, [], ◌∷◌, ◌++◌,
  append_assoc, length, drop, arith, take-length_append,
}
use ideate.Common.Errors.{ok}
use ideate.Text.{Text, has_prefix, is_empty, index, trim_left}
use ideate.Text.Laws.{has_prefix-append}
use ideate.Model.Idea.{Idea}
use ideate.Model.Frontmatter.{
  delim_line, parse_frontmatter, repair_status, unmarshal_idea, parse_idea_file,
  serialize_idea_file,
}

-- A match that begins in `c ∷ y` and ends behind it would need a line break inside the delimiter.
no_straddle :
    (c : ℕ) (y z : Text)
    → has_prefix (c ∷ y) delim_line ≡ false
    → has_prefix (c ∷ (y ++ (delim_line ++ z))) delim_line ≡ false
unfolding has_prefix
no_straddle c [] z h = ground arith
no_straddle c (a ∷ []) z h = ground arith
no_straddle c (a ∷ b ∷ []) z h = ground arith
no_straddle c (a ∷ b ∷ d ∷ y) z h = h

-- Behind a text that lacks the delimiter line, the delimiter line is found where it stands.
index-append_delim :
    (y z : Text)
    → index y delim_line ≡ none
    → index (y ++ (delim_line ++ z)) delim_line ≡ some (length y)
unfolding index
index-append_delim [] z h = unfold has_prefix in refl
index-append_delim (c ∷ y) z h = ground (arith, no_straddle c y z, index-append_delim y z)

drop_past_delim : (y z : Text) → drop (length y + 4) (y ++ (delim_line ++ z)) ≡ z
drop_past_delim [] z = refl
drop_past_delim (c ∷ y) z = ground (arith, drop_past_delim y z)

trim_delim : (s : Text) → trim_left (λ c. c == b'\n') (delim_line ++ s) ≡ delim_line ++ s
unfolding trim_left
trim_delim s = refl

-- A file that begins with the delimiter line splits at the first delimiter line behind it: if
-- the text between holds none, it is the YAML, and what follows is the body.
pub parse_frontmatter_split :
    (y z : Text)
    → index y delim_line ≡ none
    → parse_frontmatter (delim_line ++ (y ++ (delim_line ++ z))) ≡ ok (y, z)
unfolding parse_frontmatter
parse_frontmatter_split y z h =
    let rest = y ++ (delim_line ++ z) in
    ground (
      arith,
      trim_delim rest,
      has_prefix-append delim_line rest,
      index-append_delim y z h,
      take-length_append y (delim_line ++ z),
      drop_past_delim y z,
    )

-- What the YAML library is documented to do with an idea: the fields that are tagged "-" are
-- not written, and all others are read back as they were written.
pub record ReadsBack (marshal : Idea → Text) (unmarshal : Text → Option Idea) (idea : Idea)
    : Type 0 where
  pub reads : unmarshal (marshal idea) ≡ some (record idea { slug = []; summary = [] })
  pub some_text : marshal idea ≢ []

serialize_shape :
    (marshal : Idea → Text) (idea : Idea)
    → serialize_idea_file marshal idea
      ≡ delim_line ++ (marshal idea ++ (delim_line ++ idea.summary))
unfolding serialize_idea_file
serialize_shape marshal idea = go idea.summary
  where
    go :
        (body : Text)
        → (if not (is_empty body)
            then (delim_line ++ (marshal idea ++ delim_line)) ++ body
            else delim_line ++ (marshal idea ++ delim_line))
          ≡ delim_line ++ (marshal idea ++ (delim_line ++ body))
    go [] = refl
    go (c ∷ body) = simp append_assoc

not_empty : (s : Text) → s ≢ [] → is_empty s ≡ false
not_empty [] h = absurd (h refl)
not_empty (c ∷ s) h = refl

repair_stored :
    (idea : Idea) (slug body : Text)
    → record (repair_status (record idea { slug = slug; summary = body })) {
      summary = idea.summary;
    }
      ≡ record (repair_status idea) { slug = slug }
unfolding repair_status
repair_stored idea slug body = ground arith

-- An idea that is written and read back keeps its fields and its body, with an unknown status
-- read as active and with no slug, where the YAML package reads its own text of the idea back
-- without slug and body, and that text is not empty and holds no delimiter line.
pub parse_idea_file-serialize :
    (marshal : Idea → Text) (unmarshal : Text → Option Idea) (idea : Idea)
    → ReadsBack marshal unmarshal idea
    → index (marshal idea) delim_line ≡ none
    → parse_idea_file unmarshal (serialize_idea_file marshal idea)
      ≡ ok (record (repair_status idea) { slug = [] })
unfolding parse_idea_file
parse_idea_file-serialize marshal unmarshal idea h lacks = rw (serialize_shape marshal idea) (
    rw (parse_frontmatter_split (marshal idea) idea.summary lacks) (
      rw (not_empty (marshal idea) h.some_text, h.reads, unmarshal_idea)
        (ap ok (repair_stored idea [] []))))
