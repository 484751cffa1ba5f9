-- ===== src/Tests/Members.antt =====
-- The theorems on objects (src/object.cpp) at the sample object.
use slabjson.Prelude.{◌≡◌, sym, none, some, if◌then◌else◌, length}
use slabjson.Slab.{ValueType, validate_attachment, make_object}
use slabjson.Container.{container_size, begin_of, end_of}
use slabjson.Container.Build.{Builds}
use slabjson.Container.Read.{container_size-kids, Visits, begin_of-Visits}
use slabjson.Forest.{with_child}
use slabjson.Forest.Ancestors.{Verdict, validate_attachment-Verdict}
use slabjson.Forest.Basic.{no_kids}
use slabjson.Document.Scalar.{unsigned, make_scalar}
use slabjson.Object.{add, add_object, find, remove, bytes_eq}
use slabjson.Object.Add.{Ends, add_member-IsDocument}
use slabjson.Document.Reads.{Holds}
use slabjson.Document.Keeps.{OfType}
use slabjson.Object.Build.{add_scalar, KeyFails, add_member-Builds, add_member_object-Builds}
use slabjson.Object.Find.{Finds, find-Finds}
use slabjson.Object.Lookup.{or_else, find-add}
use slabjson.Object.Remove.{Removes, remove-Removes}
use slabjson.Object.Removed.{find-remove}
use slabjson.Object.RoundTrip.{Reads, get-add}
use slabjson.Tests.Sample.{
  key_ne_other, runs, live, the_object, key, other, with_object, with_member,
  with_object-IsDocument, with_member-IsDocument, with_root, the_root, with_root-IsDocument,
}

get-add_example : Reads the_object key (unsigned 7) with_member
get-add_example =
    get-add with_object-IsDocument the_object key (unsigned 7) (sym runs.object_here) runs.key_fresh
      runs.member_added

remove-Removes_example :
    Removes with_member (with_child no_kids 0 1) the_object key (remove the_object key with_member)
remove-Removes_example = remove-Removes with_member-IsDocument the_object key

find-remove_example :
    find (remove the_object key with_member).1 the_object other ≡ find with_member the_object other
find-remove_example =
    find-remove with_member-IsDocument the_object key other runs.member_removed key_ne_other

add_member-Builds_example :
    Builds
      (λ _. tt)
      ValueType.object
      the_object
      (make_scalar (unsigned 7))
      (Holds (unsigned 7))
      (KeyFails (make_scalar (unsigned 7)) key with_object)
      no_kids
      with_object
      (add_scalar the_object key (unsigned 7) with_object)
add_member-Builds_example =
    add_member-Builds the_object key with_object-IsDocument (sym runs.object_here) (unsigned 7)

add_member_object-Builds_example :
    Builds
      (λ c. c)
      ValueType.object
      the_object
      make_object
      (OfType ValueType.object)
      (KeyFails make_object other with_member)
      (with_child no_kids 0 1)
      with_member
      (add_object the_object other with_member)
add_member_object-Builds_example =
    add_member_object-Builds the_object other with_member-IsDocument (sym runs.member_here)

find-Finds_example :
    Finds with_member key (with_child no_kids 0 1 0) (find with_member the_object key)
find-Finds_example =
    find-Finds with_member-IsDocument the_object
      (live with_member the_object ValueType.object (with_member.nodes 0) runs.member_live) key

find-add_example :
    find (add the_object key the_root with_root).1 the_object key
    ≡ or_else (find with_root the_object key) (if bytes_eq key key then some the_root else none)
find-add_example = find-add with_root-IsDocument the_object the_root key runs.root_added key

add_member-IsDocument_example :
    Ends with_root no_kids the_object key the_root (add the_object key the_root with_root)
add_member-IsDocument_example = add_member-IsDocument with_root-IsDocument the_object key the_root

validate_attachment-Verdict_example :
    Verdict with_root 0 1 the_root ValueType.object
      (validate_attachment with_root 0 1 the_root ValueType.object)
validate_attachment-Verdict_example =
    validate_attachment-Verdict with_root-IsDocument.forest 0 1 the_root ValueType.object

container_size-kids_example :
    container_size ValueType.object with_member the_object ≡ length (with_child no_kids 0 1 0)
container_size-kids_example =
    container_size-kids with_member-IsDocument ValueType.object the_object
      (live with_member the_object ValueType.object (with_member.nodes 0) runs.member_live)

begin_of-Visits_example :
    Visits with_member
      (end_of the_object)
      (begin_of ValueType.object with_member the_object)
      (with_child no_kids 0 1 0)
begin_of-Visits_example =
    begin_of-Visits with_member-IsDocument ValueType.object the_object
      (live with_member the_object ValueType.object (with_member.nodes 0) runs.member_live)
