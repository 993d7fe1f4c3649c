-- ===== src/Store/Committed.antt =====
-- The manifest is the commit marker: where it can be read, the originals that it names are there
-- with the hashes that it records.
pub mod Keeping
pub mod Staging
pub mod Marking
pub mod Publishing
use hack_ef3da0e3_aib2bsaass.Base.{
  ◌≡◌, refl, sym, ap, subst, ◌∙◌, Bool, true, false, Option, none, some, List, arith, if◌then◌else◌,
}
use hack_ef3da0e3_aib2bsaass.Model.Text.{Text}
use hack_ef3da0e3_aib2bsaass.Model.Meeting.{ReadyManifest}
use hack_ef3da0e3_aib2bsaass.Store.World.{
  Env, Artifact, Name, Files, Sent, live, manifest_json, transcript_json, insights_json,
  transcript_txt, name_beq, name_beq_iff, write, remove,
}
use hack_ef3da0e3_aib2bsaass.Store.Files.Laws.{View}
use hack_ef3da0e3_aib2bsaass.Store.Records.{parse_manifest}

module _ ⦃env : Env⦄ where
  -- The file is there, with this hash.
  abbrev pub Holds : Files → Artifact → Text → Type 0
  Holds f name hash = (b : env.Bytes) × (f (live name) ≡ some b) × (env.sha256 b ≡ hash)

  pub record HoldsAll (f : Files) (m : ReadyManifest) : Type 0 where
    pub transcript : Holds f transcript_json m.artifacts.transcript_json
    pub insights : Holds f insights_json m.artifacts.insights_json
    pub text : Holds f transcript_txt m.artifacts.transcript_txt

  pub record IsCommitted (f : Files) : Type 0 where
    pub complete :
        (b : env.Bytes) (m : ReadyManifest)
        → f (live manifest_json) ≡ some b
        → parse_manifest b ≡ some m
        → HoldsAll f m

  abbrev pub Committed : View
  Committed f s = IsCommitted f

  -- The files by which a folder is committed are the same.
  pub record SameOriginals (f g : Files) : Type 0 where
    pub manifest : g (live manifest_json) ≡ f (live manifest_json)
    pub transcript : g (live transcript_json) ≡ f (live transcript_json)
    pub insights : g (live insights_json) ≡ f (live insights_json)
    pub text : g (live transcript_txt) ≡ f (live transcript_txt)

  Holds-transfer :
      (f g : Files) (a : Artifact) (hash : Text)
      → g (live a) ≡ f (live a)
      → Holds f a hash
      → Holds g a hash
  Holds-transfer f g a hash e (b, p, q) = (b, e ∙ p, q)

  pub IsCommitted-transfer : (f g : Files) → SameOriginals f g → IsCommitted f → IsCommitted g
  IsCommitted-transfer f g e c = record {
    complete = λ b m p q.
        let h = c.complete b m (sym e.manifest ∙ p) q in
        record {
          transcript = Holds-transfer f g transcript_json _ e.transcript h.transcript;
          insights = Holds-transfer f g insights_json _ e.insights h.insights;
          text = Holds-transfer f g transcript_txt _ e.text h.text;
        };
  }

  -- With no manifest there is nothing to hold.
  pub IsCommitted-unmarked : (f : Files) → f (live manifest_json) ≡ none → IsCommitted f
  IsCommitted-unmarked f h = record { complete = λ b m p q. cc }

  pub write-other :
      (n k : Name) (d : env.Bytes) (f : Files) → name_beq n k ≡ false → write n d f k ≡ f k
  unfolding write
  write-other n k d f h = rw h

  pub write_self : (n : Name) (d : env.Bytes) (f : Files) → write n d f n ≡ some d
  unfolding write
  write_self n d f = rw (name_beq_iff n n).1 refl

  pub remove-other : (n k : Name) (f : Files) → name_beq n k ≡ false → remove n f k ≡ f k
  unfolding remove
  remove-other n k f h = rw h

  pub remove_self : (n : Name) (f : Files) → remove n f n ≡ none
  unfolding remove
  remove_self n f = rw (name_beq_iff n n).1 refl

  -- A name that is none of the four.
  pub record IsAside (n : Name) : Type 0 where
    pub manifest : name_beq n (live manifest_json) ≡ false
    pub transcript : name_beq n (live transcript_json) ≡ false
    pub insights : name_beq n (live insights_json) ≡ false
    pub text : name_beq n (live transcript_txt) ≡ false

  pub write-IsCommitted :
      (n : Name) (d : env.Bytes) (f : Files) → IsAside n → IsCommitted f → IsCommitted (write n d f)
  write-IsCommitted n d f a = IsCommitted-transfer f (write n d f) (record {
    manifest = write-other n (live manifest_json) d f a.manifest;
    transcript = write-other n (live transcript_json) d f a.transcript;
    insights = write-other n (live insights_json) d f a.insights;
    text = write-other n (live transcript_txt) d f a.text;
  })

  pub remove-IsCommitted :
      (n : Name) (f : Files) → IsAside n → IsCommitted f → IsCommitted (remove n f)
  remove-IsCommitted n f a = IsCommitted-transfer f (remove n f) (record {
    manifest = remove-other n (live manifest_json) f a.manifest;
    transcript = remove-other n (live transcript_json) f a.transcript;
    insights = remove-other n (live insights_json) f a.insights;
    text = remove-other n (live transcript_txt) f a.text;
  })
