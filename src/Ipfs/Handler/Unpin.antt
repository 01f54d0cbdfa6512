-- ===== src/Ipfs/Handler/Unpin.antt =====
-- The rows of the database and the pins of the node after `unPinDBWithPined` of
-- pkg/handler/ipfsHandler.go.
use chain_api.Common.{
  ℕ, String, Bool, true, false, ◌≡◌, ◌≢◌, refl, sym, ap, ◌∙◌, subst, ok, Option, none, some, ltb,
  continue, inl, inr, Bool-cases, ◌==◌, eq_iff, if◌then◌else◌,
}
use chain_api.Ipfs.{IpfsFile, Assigned, Surroundings, Names}
use chain_api.Ipfs.Service.{checked, get_user_id_by_api_key, un_pin_object, get_ipfs_pin_file}
use chain_api.Ipfs.Handler.{Flow, dropped, or_no_file, pin_again, un_pin_db_with_pined}

module _ (S : Surroundings) (N : Names) where
  open S use {World, Error}

  -- Whether a row of some user pins an object, and whether the node has it pinned.
  pub record Pins : Type 0 where
    pub row : World → String → Bool
    pub node : World → String → Bool

  abbrev pub SamePins : Pins → World → World → Type 0
  SamePins P w w' = (cid : String) → (P.row w' cid ≡ P.row w cid) × (P.node w' cid ≡ P.node w cid)

  -- What the database and a node that answer do.
  pub record Answers (P : Pins) : Type 1 where
    pub cache_keeps :
        {A : Type 0} (key : String) (a : A) (m : Assigned World Error A)
        → ((w : World) → SamePins P w (m w).1)
        → (w : World) → SamePins P w (S.cache_fn key a m w).1
    pub id_keeps : (api_key : String) (w : World) → SamePins P w (S.get_id_by_api_key api_key w).1
    -- to unpin a user's row pins no other, and does nothing at the node
    pub unpin_row :
        (user : ℕ) (cid : String) (w : World) (c : String)
        → P.row (S.set_user_file_pin_status user N.pin_status_unpin cid w).1 c ≡ true
        → P.row w c ≡ true
    pub unpin_node :
        (user : ℕ) (cid : String) (w : World) (c : String)
        → P.node (S.set_user_file_pin_status user N.pin_status_unpin cid w).1 c ≡ P.node w c
    pub file_keeps :
        (cid : String) (w : World) → SamePins P w (S.get_pin_file cid N.pin_status_pin w).1
    pub file_found :
        (cid : String) (w : World)
        → (file : IpfsFile) × ((S.get_pin_file cid N.pin_status_pin w).0 ≡ (file, none))
          × (ltb 0 file.id ≡ P.row w cid)
    pub pin_row : (cid : String) (w : World) (c : String) → P.row (S.pin_add cid w).1 c ≡ P.row w c
    pub pin_node :
        (cid : String) (w : World) (c : String)
        → P.node (S.pin_add cid w).1 c ≡ (if c == cid then true else P.node w c)

  -- The node has what some row pins.
  abbrev pub Pinned : Pins → World → Type 0
  Pinned P w = (cid : String) → P.row w cid ≡ true → P.node w cid ≡ true

  -- The same of every other object.
  abbrev pub PinnedBut : Pins → String → World → Type 0
  PinnedBut P cid w = (c : String) → c ≢ cid → P.row w c ≡ true → P.node w c ≡ true

  module _ (P : Pins) (L : Answers P) where
    same-PinnedBut :
        (cid : String) (w w' : World) → SamePins P w w' → PinnedBut P cid w → PinnedBut P cid w'
    same-PinnedBut cid w w' s h c n e = (s c).1 ∙ h c n (sym (s c).0 ∙ e)

    un_pin-PinnedBut :
        (api_key cid : String) (w : World)
        → PinnedBut P cid w
        → PinnedBut P cid (un_pin_object S N api_key cid w).1
    unfolding un_pin_object get_user_id_by_api_key
    un_pin-PinnedBut api_key cid w h c n e =
        let (user, w') = get_user_id_by_api_key S N api_key w in
        let same =
          L.cache_keeps (N.api_key_user_id api_key) 0 (S.get_id_by_api_key api_key)
            (L.id_keeps api_key) w in
        L.unpin_node user cid w' c
        ∙ same-PinnedBut cid w w' same h c n (L.unpin_row user cid w' c e)

    again-Pinned :
        (cid : String) (file : IpfsFile) (w : World)
        → ltb 0 file.id ≡ P.row w cid
        → PinnedBut P cid w
        → Pinned P (pin_again S N cid file w).1
    again-Pinned cid file w k h = by_row (ltb 0 file.id) k
      where
        differs : (c : String) → (c == cid) ≡ false → c ≢ cid
        differs c f q = let t = (eq_iff c cid).1 q in cc

        by_row :
            (b : Bool)
            → b ≡ P.row w cid
            → Pinned P
                (if◌then◌else◌ {A = Flow S N (Unit {0})} b
                  (dropped S N (S.pin_add cid))
                  (λ s. (ok tt, s))
                  w).1
        by_row true e c r = L.pin_node cid w c ∙ elim (Bool-cases (c == cid)) [
          | inl t ↦ rw t refl
          | inr f ↦ rw f (h c (differs c f) (sym (L.pin_row cid w c) ∙ r))
        ]
        by_row false e c r = elim (Bool-cases (c == cid)) [
          | inl t ↦
              let same = (eq_iff c cid).0 t in
              let row : P.row w cid ≡ true = subst (λ x. P.row w x ≡ true) same r in cc
          | inr f ↦ h c (differs c f) r
        ]

    -- Where the database and the node answer, and the node has what some row pins, of every object but
    -- the one that is unpinned: after `unPinDBWithPined` it has what some row pins, of every object.
    pub un_pin_db_with_pined-Pinned :
        (api_key cid : String) (w : World)
        → PinnedBut P cid w
        → Pinned P (un_pin_db_with_pined S N api_key cid w).1
    unfolding un_pin_db_with_pined get_ipfs_pin_file
    un_pin_db_with_pined-Pinned api_key cid w h =
        let w' = (un_pin_object S N api_key cid w).1 in
        let (file, found, k) = L.file_found cid w' in
        looked_up (S.get_pin_file cid N.pin_status_pin w') file found
          (k ∙ sym (L.file_keeps cid w' cid).0)
          (same-PinnedBut cid w' _ (L.file_keeps cid w') (un_pin-PinnedBut api_key cid w h))
      where
        looked_up :
            (p : (IpfsFile × Option Error) × World) (file : IpfsFile)
            → p.0 ≡ (file, none)
            → ltb 0 file.id ≡ P.row p.1 cid
            → PinnedBut P cid p.1
            → Pinned P (continue (pin_again S N cid) (or_no_file S N (checked S N p))).1
        looked_up ((f, none), w3) file e k g =
            let same : f ≡ file = ap (λ q. q.0) e in
            again-Pinned cid f w3 (subst (λ x. ltb 0 x.id ≡ P.row w3 cid) (sym same) k) g
        looked_up ((f, some x), w3) file e k g = let no : some x ≡ none = ap (λ q. q.1) e in cc
