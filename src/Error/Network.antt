-- ===== src/Error/Network.antt =====
-- hoarder-common/src/error.rs: the second half of the errno values that no other code names.
use hoarder.Base.{pos}
use hoarder.Error.{Errno, errno}

abbrev pub enopkg : Errno
enopkg = errno (pos 65)

abbrev pub eremote : Errno
eremote = errno (pos 66)

abbrev pub enolink : Errno
enolink = errno (pos 67)

abbrev pub eadv : Errno
eadv = errno (pos 68)

abbrev pub esrmnt : Errno
esrmnt = errno (pos 69)

abbrev pub ecomm : Errno
ecomm = errno (pos 70)

abbrev pub eproto : Errno
eproto = errno (pos 71)

abbrev pub emultihop : Errno
emultihop = errno (pos 72)

abbrev pub edotdot : Errno
edotdot = errno (pos 73)

abbrev pub ebadmsg : Errno
ebadmsg = errno (pos 74)

abbrev pub eoverflow : Errno
eoverflow = errno (pos 75)

abbrev pub enotuniq : Errno
enotuniq = errno (pos 76)

abbrev pub ebadfd : Errno
ebadfd = errno (pos 77)

abbrev pub eremchg : Errno
eremchg = errno (pos 78)

abbrev pub elibacc : Errno
elibacc = errno (pos 79)

abbrev pub elibbad : Errno
elibbad = errno (pos 80)

abbrev pub elibscn : Errno
elibscn = errno (pos 81)

abbrev pub elibmax : Errno
elibmax = errno (pos 82)

abbrev pub elibexec : Errno
elibexec = errno (pos 83)

abbrev pub eilseq : Errno
eilseq = errno (pos 84)

abbrev pub erestart : Errno
erestart = errno (pos 85)

abbrev pub estrpipe : Errno
estrpipe = errno (pos 86)

abbrev pub eusers : Errno
eusers = errno (pos 87)

abbrev pub edestaddrreq : Errno
edestaddrreq = errno (pos 89)

abbrev pub emsgsize : Errno
emsgsize = errno (pos 90)

abbrev pub eprototype : Errno
eprototype = errno (pos 91)

abbrev pub enoprotoopt : Errno
enoprotoopt = errno (pos 92)

abbrev pub eprotonosupport : Errno
eprotonosupport = errno (pos 93)

abbrev pub esocktnosupport : Errno
esocktnosupport = errno (pos 94)

abbrev pub epfnosupport : Errno
epfnosupport = errno (pos 96)

abbrev pub eaddrinuse : Errno
eaddrinuse = errno (pos 98)

abbrev pub eaddrnotavail : Errno
eaddrnotavail = errno (pos 99)

abbrev pub eisconn : Errno
eisconn = errno (pos 106)

abbrev pub etoomanyrefs : Errno
etoomanyrefs = errno (pos 109)

abbrev pub econnrefused : Errno
econnrefused = errno (pos 111)

abbrev pub ehostdown : Errno
ehostdown = errno (pos 112)

abbrev pub ehostunreach : Errno
ehostunreach = errno (pos 113)

abbrev pub ealready : Errno
ealready = errno (pos 114)

abbrev pub einprogress : Errno
einprogress = errno (pos 115)

abbrev pub estale : Errno
estale = errno (pos 116)

abbrev pub euclean : Errno
euclean = errno (pos 117)

abbrev pub enotnam : Errno
enotnam = errno (pos 118)

abbrev pub enavail : Errno
enavail = errno (pos 119)

abbrev pub eisnam : Errno
eisnam = errno (pos 120)

abbrev pub eremoteio : Errno
eremoteio = errno (pos 121)

abbrev pub edquot : Errno
edquot = errno (pos 122)

abbrev pub enomedium : Errno
enomedium = errno (pos 123)

abbrev pub emediumtype : Errno
emediumtype = errno (pos 124)

abbrev pub ecanceled : Errno
ecanceled = errno (pos 125)

abbrev pub enokey : Errno
enokey = errno (pos 126)

abbrev pub ekeyexpired : Errno
ekeyexpired = errno (pos 127)

abbrev pub ekeyrevoked : Errno
ekeyrevoked = errno (pos 128)

abbrev pub ekeyrejected : Errno
ekeyrejected = errno (pos 129)

abbrev pub eownerdead : Errno
eownerdead = errno (pos 130)

abbrev pub enotrecoverable : Errno
enotrecoverable = errno (pos 131)

abbrev pub erfkill : Errno
erfkill = errno (pos 132)

abbrev pub ehwpoison : Errno
ehwpoison = errno (pos 133)
