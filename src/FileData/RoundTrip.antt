-- ===== src/FileData/RoundTrip.antt =====
-- What `file_write` wrote, `file_read` reads back.
use linux_0_11_learning.Base.{
  ℕ, zero, suc, ◌+◌, ◌/◌, ◌≡◌, refl, ◌∙◌, ◌⊎◌, inl, inr, true, false, some, List, [], ◌∷◌, ◌++◌,
  ◌==◌, arith, Bool-cases, length,
}
use linux_0_11_learning.FileData.{
  File, block_size, update, bytes_from, store, file_read, file_write,
}
use linux_0_11_learning.FileData.Reading.{byte_at, bytes_of, file_read-ReadBytes}
use linux_0_11_learning.FileData.Storing.{content, IsFile, store_outside}
use linux_0_11_learning.FileData.Writing.{file_write-FileWritten}

byte_at-content : (s : File) → IsFile s → (p : ℕ) → byte_at s p ≡ some (content s p)
unfolding content
byte_at-content s ok p =
    let nr = s.zone (p / block_size) in
    elim (Bool-cases (nr == 0)) [
      | inl hole ↦ rw hole refl
      | inr there ↦ rw (there, ok.can_read nr) refl
    ]

bytes_of-content : (s : File) → IsFile s → (p n : ℕ) → bytes_of s p n ≡ bytes_from (content s) p n
unfolding bytes_of bytes_from
bytes_of-content s ok p zero = refl
bytes_of-content s ok p (suc n) = rw (byte_at-content s ok p, bytes_of-content s ok (p + 1) n) refl

bytes_from_congr :
    (f g : ℕ → ℕ) → ((q : ℕ) → f q ≡ g q) → (p n : ℕ) → bytes_from f p n ≡ bytes_from g p n
unfolding bytes_from
bytes_from_congr f g h p zero = refl
bytes_from_congr f g h p (suc n) = rw (h p, bytes_from_congr f g h (p + 1) n) refl

bytes_from-store : (f : ℕ → ℕ) (p : ℕ) (bs : List ℕ) → bytes_from (store f p bs) p (length bs) ≡ bs
unfolding bytes_from store
bytes_from-store f p [] = refl
bytes_from-store f p (b ∷ bs) =
    let self : (p == p) ≡ true = ground arith in
    let first : store (update f p b) (p + 1) bs p ≡ b =
      store_outside bs (update f p b) (p + 1) p (inl (omega arith)) ∙ rw self refl in
    rw (first, bytes_from-store (update f p b) (p + 1) bs) refl

-- Where every block can be read, a process that writes, seeks back and reads gets the bytes that it
-- wrote: the first of the buffer, and all of them unless no block is free.
pub file_read-file_write :
    (now : ℕ) (buf : List ℕ) (s : File)
    → IsFile s
    → s.o_append ≡ false
    → let s' = (file_write now buf s).1 in
      (done : List ℕ) × (left : List ℕ) × (buf ≡ done ++ left)
      × ((left ≡ []) ⊎ (s'.free ≡ []))
      × ((file_read now (length done) (record s' { f_pos = s.f_pos })).0 ≡ done)
file_read-file_write now buf s ok append =
    let s' = (file_write now buf s).1 in
    let w = file_write-FileWritten now buf s ok in
    let back = record s' { f_pos = s.f_pos } in
    let r = file_read-ReadBytes now (length w.done) back in
    let ok' : IsFile back = record {
      distinct = w.file.distinct;
      fresh = w.file.fresh;
      can_read = w.file.can_read;
    } in
    let same : (q : ℕ) → content back q ≡ store (content s) s.f_pos w.done q =
      λ q. unfold content in w.bytes q ∙ rw append refl in
    (
      w.done,
      w.left,
      w.whole,
      w.stops,
      r.bytes
          ∙ bytes_of-content back ok' s.f_pos (length w.done)
          ∙ bytes_from_congr (content back) (store (content s) s.f_pos w.done) same s.f_pos
              (length w.done)
          ∙ bytes_from-store (content s) s.f_pos w.done,
    )
