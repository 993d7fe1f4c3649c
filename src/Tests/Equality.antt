-- ===== src/Tests/Equality.antt =====
-- Equality tests of the models, for the concrete bytes of the tests: each type is given by a pair
-- of functions to and from a type that has its tests already.
use hack_ef3da0e3_aib2bsaass.Base.{
  ℕ, ◌≡◌, ◌↔◌, ◌⊎◌, inl, inr, refl, sym, ap, ◌∙◌, Bool, true, false, ◌&&◌, List, [], ◌∷◌, arith,
  zero, suc, Eq, nat_eq, list_eq,
}
use hack_ef3da0e3_aib2bsaass.Model.Transcript.{IdentityStatus, Language}
use hack_ef3da0e3_aib2bsaass.Model.Meeting.{
  MeetingStatus, MeetingStage, CleanupStatus, LanguageHint, AudioExtension, SourceKind, FailureCode,
}

abbrev pub by_retract :
    {A B : Type 0} ⦃e : Eq B⦄ (f : A → B) (g : B → A) → ((a : A) → g (f a) ≡ a) → Eq A
by_retract ⦃e⦄ f g h = record {
  beq = λ a b. e.beq (f a) (f b);
  beq_iff = λ a b. (
    (λ p. sym (h a) ∙ ap g ((e.beq_iff (f a) (f b)).0 p) ∙ h b),
    (λ p. (e.beq_iff (f a) (f b)).1 (ap f p)),
  );
}

infixr 5 ◌&◌
pub data ◌&◌ (A B : Type 0) : Type 0 where
  ◌⋈◌ : A → B → A & B

infixr 5 ◌⋈◌
module _ {A B : Type 0} ⦃a : Eq A⦄ ⦃b : Eq B⦄ where
  abbrev pair_beq : A & B → A & B → Bool
  pair_beq (x ⋈ x') (y ⋈ y') = a.beq x y && b.beq x' y'

  pub pair_beq_iff : (p q : A & B) → (pair_beq p q ≡ true) ↔ (p ≡ q)
  pair_beq_iff (x ⋈ x') (y ⋈ y') =
      ground (arith, (a.beq_iff x y).0, (a.beq_iff x y).1, (b.beq_iff x' y').0, (b.beq_iff x' y').1)

  instance abbrev pub pair_eq : Eq (A & B)
  pair_eq = record { beq = pair_beq; beq_iff = pair_beq_iff }

  abbrev sum_beq : A ⊎ B → A ⊎ B → Bool
  sum_beq (inl x) (inl y) = a.beq x y
  sum_beq (inr x) (inr y) = b.beq x y
  sum_beq _ _ = false

  pub sum_beq_iff : (x y : A ⊎ B) → (sum_beq x y ≡ true) ↔ (x ≡ y)
  sum_beq_iff (inl x) (inl y) = ground (arith, (a.beq_iff x y).0, (a.beq_iff x y).1)
  sum_beq_iff (inr x) (inr y) = ground (arith, (b.beq_iff x y).0, (b.beq_iff x y).1)
  sum_beq_iff (inl x) (inr y) = ground arith
  sum_beq_iff (inr x) (inl y) = ground arith

  instance abbrev pub sum_eq : Eq (A ⊎ B)
  sum_eq = record { beq = sum_beq; beq_iff = sum_beq_iff }

abbrev bit : Bool → ℕ
bit true = 1
bit false = 0

-- the element at a position, and the first argument beyond the end
abbrev pub pick : {A : Type 0} → A → List A → ℕ → A
pick d [] n = d
pick d (x ∷ xs) zero = x
pick d (x ∷ xs) (suc n) = pick d xs n

abbrev from_bit : ℕ → Bool
from_bit = pick true (false ∷ [])

pub bit_back : (b : Bool) → from_bit (bit b) ≡ b
bit_back true = refl
bit_back false = refl

instance abbrev pub bool_eq : Eq Bool
bool_eq = by_retract bit from_bit bit_back

abbrev meeting_status_rank : MeetingStatus → ℕ
meeting_status_rank MeetingStatus.queued = 0
meeting_status_rank MeetingStatus.processing = 1
meeting_status_rank MeetingStatus.review_required = 2
meeting_status_rank MeetingStatus.approved = 3
meeting_status_rank MeetingStatus.failed = 4

abbrev meeting_status_of : ℕ → MeetingStatus
meeting_status_of = pick MeetingStatus.failed (
    MeetingStatus.queued ∷ MeetingStatus.processing ∷ MeetingStatus.review_required
    ∷ MeetingStatus.approved ∷ [])

pub meeting_status_back : (x : MeetingStatus) → meeting_status_of (meeting_status_rank x) ≡ x
meeting_status_back MeetingStatus.queued = refl
meeting_status_back MeetingStatus.processing = refl
meeting_status_back MeetingStatus.review_required = refl
meeting_status_back MeetingStatus.approved = refl
meeting_status_back MeetingStatus.failed = refl

instance abbrev pub meeting_status_eq : Eq MeetingStatus
meeting_status_eq = by_retract meeting_status_rank meeting_status_of meeting_status_back

abbrev meeting_stage_rank : MeetingStage → ℕ
meeting_stage_rank MeetingStage.uploading_to_gpu = 0
meeting_stage_rank MeetingStage.ingesting = 1
meeting_stage_rank MeetingStage.transcribing = 2
meeting_stage_rank MeetingStage.diarizing = 3
meeting_stage_rank MeetingStage.analyzing = 4
meeting_stage_rank MeetingStage.saving_results = 5
meeting_stage_rank MeetingStage.exporting = 6

abbrev meeting_stage_of : ℕ → MeetingStage
meeting_stage_of = pick MeetingStage.exporting (
    MeetingStage.uploading_to_gpu ∷ MeetingStage.ingesting ∷ MeetingStage.transcribing
    ∷ MeetingStage.diarizing ∷ MeetingStage.analyzing ∷ MeetingStage.saving_results ∷ [])

pub meeting_stage_back : (x : MeetingStage) → meeting_stage_of (meeting_stage_rank x) ≡ x
meeting_stage_back MeetingStage.uploading_to_gpu = refl
meeting_stage_back MeetingStage.ingesting = refl
meeting_stage_back MeetingStage.transcribing = refl
meeting_stage_back MeetingStage.diarizing = refl
meeting_stage_back MeetingStage.analyzing = refl
meeting_stage_back MeetingStage.saving_results = refl
meeting_stage_back MeetingStage.exporting = refl

instance abbrev pub meeting_stage_eq : Eq MeetingStage
meeting_stage_eq = by_retract meeting_stage_rank meeting_stage_of meeting_stage_back

abbrev cleanup_status_rank : CleanupStatus → ℕ
cleanup_status_rank CleanupStatus.pending = 0
cleanup_status_rank CleanupStatus.deleted = 1
cleanup_status_rank CleanupStatus.expired = 2

abbrev cleanup_status_of : ℕ → CleanupStatus
cleanup_status_of = pick CleanupStatus.expired (CleanupStatus.pending ∷ CleanupStatus.deleted ∷ [])

pub cleanup_status_back : (x : CleanupStatus) → cleanup_status_of (cleanup_status_rank x) ≡ x
cleanup_status_back CleanupStatus.pending = refl
cleanup_status_back CleanupStatus.deleted = refl
cleanup_status_back CleanupStatus.expired = refl

instance abbrev pub cleanup_status_eq : Eq CleanupStatus
cleanup_status_eq = by_retract cleanup_status_rank cleanup_status_of cleanup_status_back

abbrev language_hint_rank : LanguageHint → ℕ
language_hint_rank LanguageHint.auto = 0
language_hint_rank LanguageHint.ru = 1
language_hint_rank LanguageHint.kk = 2
language_hint_rank LanguageHint.mixed = 3

abbrev language_hint_of : ℕ → LanguageHint
language_hint_of =
    pick LanguageHint.mixed (LanguageHint.auto ∷ LanguageHint.ru ∷ LanguageHint.kk ∷ [])

pub language_hint_back : (x : LanguageHint) → language_hint_of (language_hint_rank x) ≡ x
language_hint_back LanguageHint.auto = refl
language_hint_back LanguageHint.ru = refl
language_hint_back LanguageHint.kk = refl
language_hint_back LanguageHint.mixed = refl

instance abbrev pub language_hint_eq : Eq LanguageHint
language_hint_eq = by_retract language_hint_rank language_hint_of language_hint_back

abbrev audio_extension_rank : AudioExtension → ℕ
audio_extension_rank AudioExtension.wav = 0
audio_extension_rank AudioExtension.mp3 = 1
audio_extension_rank AudioExtension.m4a = 2
audio_extension_rank AudioExtension.ogg = 3
audio_extension_rank AudioExtension.webm = 4

abbrev audio_extension_of : ℕ → AudioExtension
audio_extension_of =
    pick AudioExtension.webm
      (AudioExtension.wav ∷ AudioExtension.mp3 ∷ AudioExtension.m4a ∷ AudioExtension.ogg ∷ [])

pub audio_extension_back : (x : AudioExtension) → audio_extension_of (audio_extension_rank x) ≡ x
audio_extension_back AudioExtension.wav = refl
audio_extension_back AudioExtension.mp3 = refl
audio_extension_back AudioExtension.m4a = refl
audio_extension_back AudioExtension.ogg = refl
audio_extension_back AudioExtension.webm = refl

instance abbrev pub audio_extension_eq : Eq AudioExtension
audio_extension_eq = by_retract audio_extension_rank audio_extension_of audio_extension_back

abbrev source_kind_rank : SourceKind → ℕ
source_kind_rank SourceKind.uploaded_audio = 0
source_kind_rank SourceKind.browser_recording = 1
source_kind_rank SourceKind.demo_fixture = 2

abbrev source_kind_of : ℕ → SourceKind
source_kind_of =
    pick SourceKind.demo_fixture (SourceKind.uploaded_audio ∷ SourceKind.browser_recording ∷ [])

pub source_kind_back : (x : SourceKind) → source_kind_of (source_kind_rank x) ≡ x
source_kind_back SourceKind.uploaded_audio = refl
source_kind_back SourceKind.browser_recording = refl
source_kind_back SourceKind.demo_fixture = refl

instance abbrev pub source_kind_eq : Eq SourceKind
source_kind_eq = by_retract source_kind_rank source_kind_of source_kind_back

abbrev failure_code_rank : FailureCode → ℕ
failure_code_rank FailureCode.invalid_audio = 0
failure_code_rank FailureCode.processing_failed = 1
failure_code_rank FailureCode.storage_failed = 2
failure_code_rank FailureCode.source_expired = 3
failure_code_rank FailureCode.gpu_unavailable = 4
failure_code_rank FailureCode.invalid_result = 5

abbrev failure_code_of : ℕ → FailureCode
failure_code_of = pick FailureCode.invalid_result (
    FailureCode.invalid_audio ∷ FailureCode.processing_failed ∷ FailureCode.storage_failed
    ∷ FailureCode.source_expired ∷ FailureCode.gpu_unavailable ∷ [])

pub failure_code_back : (x : FailureCode) → failure_code_of (failure_code_rank x) ≡ x
failure_code_back FailureCode.invalid_audio = refl
failure_code_back FailureCode.processing_failed = refl
failure_code_back FailureCode.storage_failed = refl
failure_code_back FailureCode.source_expired = refl
failure_code_back FailureCode.gpu_unavailable = refl
failure_code_back FailureCode.invalid_result = refl

instance abbrev pub failure_code_eq : Eq FailureCode
failure_code_eq = by_retract failure_code_rank failure_code_of failure_code_back

abbrev identity_status_rank : IdentityStatus → ℕ
identity_status_rank IdentityStatus.unreviewed = 0
identity_status_rank IdentityStatus.named = 1
identity_status_rank IdentityStatus.unknown = 2

abbrev identity_status_of : ℕ → IdentityStatus
identity_status_of =
    pick IdentityStatus.unknown (IdentityStatus.unreviewed ∷ IdentityStatus.named ∷ [])

pub identity_status_back : (x : IdentityStatus) → identity_status_of (identity_status_rank x) ≡ x
identity_status_back IdentityStatus.unreviewed = refl
identity_status_back IdentityStatus.named = refl
identity_status_back IdentityStatus.unknown = refl

instance abbrev pub identity_status_eq : Eq IdentityStatus
identity_status_eq = by_retract identity_status_rank identity_status_of identity_status_back

abbrev language_rank : Language → ℕ
language_rank Language.ru = 0
language_rank Language.kk = 1
language_rank Language.unknown = 2

abbrev language_of : ℕ → Language
language_of = pick Language.unknown (Language.ru ∷ Language.kk ∷ [])

pub language_back : (x : Language) → language_of (language_rank x) ≡ x
language_back Language.ru = refl
language_back Language.kk = refl
language_back Language.unknown = refl

instance abbrev pub language_eq : Eq Language
language_eq = by_retract language_rank language_of language_back
