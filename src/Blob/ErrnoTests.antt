-- ===== src/Blob/ErrnoTests.antt =====
-- The errno values that the connection handler has no arm for.
use hoarder.Base.{◌≡◌, refl, Bool, false, ◌||◌, List, [], ◌∷◌, ◌++◌}
use hoarder.Error.{Errno, is_one_of, eagain}
use hoarder.Error.Files.{
  eperm, enoent, esrch, enxio, e2big, enoexec, echild, eacces, enotblk, ebusy, eexist, exdev,
  enodev, enotdir, eisdir, enfile, emfile, enotty, etxtbsy, efbig, enospc, espipe, erofs, emlink,
  epipe, edom, erange, edeadlk, edeadlock, enametoolong, enolck, enosys, enotempty, eloop, enomsg,
  eidrm, echrng, el2nsync, el3hlt, el3rst, elnrng, eunatch, enocsi, el2hlt, ebade, ebadr, exfull,
  enoano, ebadrqc, ebadslt, ebfont, enostr, enodata, etime, enosr, enonet, ewouldblock,
}
use hoarder.Error.Network.{
  enopkg, eremote, enolink, eadv, esrmnt, ecomm, eproto, emultihop, edotdot, ebadmsg, eoverflow,
  enotuniq, ebadfd, eremchg, elibacc, elibbad, elibscn, elibmax, elibexec, eilseq, erestart,
  estrpipe, eusers, edestaddrreq, emsgsize, eprototype, enoprotoopt, eprotonosupport,
  esocktnosupport, epfnosupport, eaddrinuse, eaddrnotavail, eisconn, etoomanyrefs, econnrefused,
  ehostdown, ehostunreach, ealready, einprogress, estale, euclean, enotnam, enavail, eisnam,
  eremoteio, edquot, enomedium, emediumtype, ecanceled, enokey, ekeyexpired, ekeyrevoked,
  ekeyrejected, eownerdead, enotrecoverable, erfkill, ehwpoison,
}
use hoarder.Blob.ConnHandler.{transient_errors, logical_errors, connection_errors}

abbrev others : List Errno
others =
    eperm ∷ enoent ∷ esrch ∷ enxio ∷ e2big ∷ enoexec ∷ echild ∷ eacces ∷ enotblk ∷ ebusy ∷ eexist
    ∷ exdev ∷ enodev ∷ enotdir ∷ eisdir ∷ enfile ∷ emfile ∷ enotty ∷ etxtbsy ∷ efbig ∷ enospc
    ∷ espipe ∷ erofs ∷ emlink ∷ epipe ∷ edom ∷ erange ∷ edeadlk ∷ edeadlock ∷ enametoolong ∷ enolck
    ∷ enosys ∷ enotempty ∷ eloop ∷ enomsg ∷ eidrm ∷ echrng ∷ el2nsync ∷ el3hlt ∷ el3rst ∷ elnrng
    ∷ eunatch ∷ enocsi ∷ el2hlt ∷ ebade ∷ ebadr ∷ exfull ∷ enoano ∷ ebadrqc ∷ ebadslt ∷ ebfont
    ∷ enostr ∷ enodata ∷ etime ∷ enosr ∷ enonet ∷ enopkg ∷ eremote ∷ enolink ∷ eadv ∷ esrmnt ∷ ecomm
    ∷ eproto ∷ emultihop ∷ edotdot ∷ ebadmsg ∷ eoverflow ∷ enotuniq ∷ ebadfd ∷ eremchg ∷ elibacc
    ∷ elibbad ∷ elibscn ∷ elibmax ∷ elibexec ∷ eilseq ∷ erestart ∷ estrpipe ∷ eusers ∷ edestaddrreq
    ∷ emsgsize ∷ eprototype ∷ enoprotoopt ∷ eprotonosupport ∷ esocktnosupport ∷ epfnosupport
    ∷ eaddrinuse ∷ eaddrnotavail ∷ eisconn ∷ etoomanyrefs ∷ econnrefused ∷ ehostdown ∷ ehostunreach
    ∷ ealready ∷ einprogress ∷ estale ∷ euclean ∷ enotnam ∷ enavail ∷ eisnam ∷ eremoteio ∷ edquot
    ∷ enomedium ∷ emediumtype ∷ ecanceled ∷ enokey ∷ ekeyexpired ∷ ekeyrevoked ∷ ekeyrejected
    ∷ eownerdead ∷ enotrecoverable ∷ erfkill ∷ ehwpoison ∷ []

any_arm : List Errno → Bool
any_arm [] = false
any_arm (e ∷ es) =
    is_one_of e (transient_errors ++ (logical_errors ++ connection_errors)) || any_arm es

no_arm : any_arm others ≡ false
unfolding any_arm is_one_of
no_arm = refl

same_value : ewouldblock ≡ eagain
same_value = refl
