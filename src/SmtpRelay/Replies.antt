-- ===== src/SmtpRelay/Replies.antt =====
-- The replies of the relay: the constants of src/smtp/smtp-reply.ts, smtp-throttle.constants.ts and
-- smtp-pipeline.constants.ts.
use zendou_backend.Common.{ℕ}
use zendou_backend.Text.{Text, text}

pub record SmtpReply : Type 0 where
  pub code : ℕ
  pub enhanced_status : Text
  pub message : Text

abbrev pub reply_account_suspended : SmtpReply
reply_account_suspended = record {
  code = 550;
  enhanced_status = text "5.7.1";
  message = text "Ce compte est suspendu";
}

abbrev pub reply_email_not_verified : SmtpReply
reply_email_not_verified = record {
  code = 550;
  enhanced_status = text "5.7.1";
  message =
      text
        "Adresse email non confirmée : confirmez votre adresse pour activer l'envoi d'emails et la création de clés API. Un lien vous a été envoyé à l'inscription ; vous pouvez en demander un nouveau depuis votre tableau de bord.";
}

abbrev pub reply_mail_from_unreadable : SmtpReply
reply_mail_from_unreadable = record {
  code = 501;
  enhanced_status = text "5.1.7";
  message =
      text
        "L'adresse d'expédition est invalide : utilisez « adresse@domaine » ou « Nom <adresse@domaine> ».";
}

abbrev pub reply_rcpt_to_unreadable : SmtpReply
reply_rcpt_to_unreadable = record {
  code = 501;
  enhanced_status = text "5.1.3";
  message =
      text
        "L'adresse du destinataire est invalide : indiquez une seule adresse comme « client@exemple.gn ».";
}

abbrev pub reply_reply_to_unreadable : SmtpReply
reply_reply_to_unreadable = record {
  code = 501;
  enhanced_status = text "5.1.7";
  message =
      text
        "L'adresse de réponse (reply-to) est invalide : utilisez « adresse@domaine » ou « Nom <adresse@domaine> ».";
}

abbrev pub reply_reply_to_not_verified : SmtpReply
reply_reply_to_not_verified = record {
  code = 550;
  enhanced_status = text "5.7.1";
  message =
      text
        "L'adresse de réponse (reply-to) doit utiliser un domaine vérifié de votre compte : ajoutez-le et validez ses enregistrements DNS avant d'envoyer.";
}

abbrev pub reply_missing_body : SmtpReply
reply_missing_body = record {
  code = 550;
  enhanced_status = text "5.7.1";
  message = text "Contenu manquant : ce message ne peut pas être accepté.";
}

abbrev pub reply_body_too_large : SmtpReply
reply_body_too_large = record {
  code = 550;
  enhanced_status = text "5.7.1";
  message = text "Contenu trop volumineux : ce message ne peut pas être accepté.";
}

abbrev pub reply_domain_not_verified : SmtpReply
reply_domain_not_verified = record {
  code = 550;
  enhanced_status = text "5.7.1";
  message =
      text
        "Le domaine d'envoi n'est pas vérifié : ajoutez-le à votre compte et validez ses enregistrements DNS avant d'envoyer.";
}

abbrev pub reply_credential_domain_out_of_scope : SmtpReply
reply_credential_domain_out_of_scope = record {
  code = 550;
  enhanced_status = text "5.7.1";
  message = text "Cet identifiant SMTP n'est pas autorisé à expédier depuis ce domaine.";
}

abbrev pub reply_test_sender_unavailable : SmtpReply
reply_test_sender_unavailable = record {
  code = 451;
  enhanced_status = text "4.3.0";
  message =
      text
        "Le mode d'envoi de test est momentanément indisponible. Réessayez dans quelques minutes, ou vérifiez un domaine pour envoyer dès maintenant.";
}

abbrev pub reply_test_sender_recipient_restricted : SmtpReply
reply_test_sender_recipient_restricted = record {
  code = 550;
  enhanced_status = text "5.7.1";
  message =
      text
        "Depuis l'adresse de test, vous ne pouvez écrire qu'à l'adresse email de votre compte. Vérifiez un domaine pour écrire à vos utilisateurs.";
}

abbrev pub reply_insufficient_credits : SmtpReply
reply_insufficient_credits = record {
  code = 450;
  enhanced_status = text "4.7.0";
  message = text "Crédits insuffisants : rechargez votre compte pour continuer à envoyer.";
}

abbrev pub reply_daily_limit_reached : SmtpReply
reply_daily_limit_reached = record {
  code = 451;
  enhanced_status = text "4.7.0";
  message =
      text "Limite journalière atteinte : réessayez demain ou demandez une augmentation de quota.";
}

abbrev pub reply_too_many_connections : SmtpReply
reply_too_many_connections = record {
  code = 421;
  enhanced_status = text "4.7.0";
  message = text "Trop de connexions depuis cette adresse IP.";
}

abbrev pub reply_auth_requires_tls : SmtpReply
reply_auth_requires_tls = record {
  code = 538;
  enhanced_status = text "5.7.11";
  message = text "Authentification refusée avant chiffrement : démarrez STARTTLS avant AUTH.";
}

abbrev pub reply_auth_invalid_credentials : SmtpReply
reply_auth_invalid_credentials = record {
  code = 535;
  enhanced_status = text "5.7.8";
  message = text "Authentification refusée : identifiant ou mot de passe invalide.";
}

abbrev pub reply_mail_from_requires_auth : SmtpReply
reply_mail_from_requires_auth = record {
  code = 530;
  enhanced_status = text "5.7.0";
  message = text "Authentification requise avant MAIL FROM.";
}

abbrev pub reply_size_exceeded : SmtpReply
reply_size_exceeded = record {
  code = 552;
  enhanced_status = text "5.3.4";
  message = text "Message trop volumineux : la taille dépasse la limite autorisée par ce relais.";
}

abbrev pub reply_too_many_recipients : SmtpReply
reply_too_many_recipients = record {
  code = 452;
  enhanced_status = text "4.5.3";
  message = text "Trop de destinataires pour ce message.";
}

abbrev pub reply_mime_invalid : SmtpReply
reply_mime_invalid = record {
  code = 554;
  enhanced_status = text "5.6.0";
  message = text "Message MIME invalide, ou plusieurs en-têtes « From: ».";
}

abbrev pub reply_unknown_client_refusal : SmtpReply
reply_unknown_client_refusal = record {
  code = 550;
  enhanced_status = text "5.7.1";
  message = text "Envoi refusé.";
}

abbrev pub reply_unknown_server_error : SmtpReply
reply_unknown_server_error = record {
  code = 451;
  enhanced_status = text "4.3.0";
  message = text "Erreur temporaire du service ; réessayez plus tard.";
}

abbrev pub reply_too_many_auth_failures : SmtpReply
reply_too_many_auth_failures = record {
  code = 421;
  enhanced_status = text "4.7.0";
  message = text "Trop d’échecs d’authentification ; connexion fermée.";
}

abbrev pub reply_send_rate_exceeded : SmtpReply
reply_send_rate_exceeded = record {
  code = 451;
  enhanced_status = text "4.7.0";
  message = text "Trop de messages en peu de temps ; réessayez dans un instant.";
}

abbrev pub reply_too_many_messages : SmtpReply
reply_too_many_messages = record {
  code = 421;
  enhanced_status = text "4.7.0";
  message = text "Trop de messages sur cette connexion ; reconnectez-vous.";
}

abbrev pub reply_too_many_refused_recipients : SmtpReply
reply_too_many_refused_recipients = record {
  code = 421;
  enhanced_status = text "4.7.0";
  message = text "Trop de destinataires refusés sur cette connexion.";
}

abbrev pub reply_raw_not_utf8 : SmtpReply
reply_raw_not_utf8 = record {
  code = 554;
  enhanced_status = text "5.6.0";
  message =
      text
        "Message refusé : son contenu n’est pas encodé en UTF-8. Encodez le corps et les pièces jointes avec un transfer-encoding standard (quoted-printable ou base64).";
}
